-- ===== src/Arena/Release.antt =====
-- An empty overflow table is given back to the arena.
use radixox.Common.{
  ℕ, ◌≡◌, refl, sym, ◌∙◌, true, inl, inr, List, ◌∷◌, none, some, same_or, Option-cases, arith,
  Returns,
}
use radixox.Overflow.{Overflow, Huge, find, big_find, is_empty, drop_huge}
use radixox.Arena.{Arena, free}
use radixox.Arena.Laws.{held, free_lem, Stores}
use radixox.Arena.Store.{StoreIsValid}

module _ (huge : Huge) where
  open huge use {Slab}

  empty_fields : (o : Overflow) → is_empty o ≡ true → (o.len ≡ 0) × (o.big_overflow_idx ≡ none)
  unfolding is_empty
  empty_fields o e = elim (Option-cases o.big_overflow_idx) [
    | inl big ↦ (ground (arith, e, big), big)
    | inr (h, big) ↦ absurd (ground (arith, e, big))
  ]

  -- An empty table has no child, and no huge part to give back.
  pub find-empty : (s : Slab) (o : Overflow) (q : ℕ) → is_empty o ≡ true → find huge s o q ≡ none
  unfolding find big_find
  find-empty s o q e = let (len, big) = empty_fields o e in rw (len, big) refl

  drop-empty : (s : Slab) (o : Overflow) → is_empty o ≡ true → (drop_huge huge s o).0 ≡ s
  unfolding drop_huge
  drop-empty s o e = let (_, big) = empty_fields o e in rw big refl

  -- The slot is vacant, and nothing else changes.
  pub record Released (vacant : List ℕ) (a : Arena) (s : Slab) (oi : ℕ) (r : Slab × Arena)
      : Type 0 where
    pub same_slab : r.0 ≡ s
    pub stores : Stores a oi none r.1
    pub valid : StoreIsValid huge (oi ∷ vacant) r.1 s

  pub free-Released :
      (vacant : List ℕ) (a : Arena) (s : Slab) (oi : ℕ) (o : Overflow)
      → StoreIsValid huge vacant a s
      → held a oi ≡ some o
      → is_empty o ≡ true
      → Returns (free huge s a oi) (Released vacant a s oi)
  free-Released vacant a s oi o v at e =
      let (r, run, (slab, stores, valid)) = free_lem huge s vacant a oi o v.arena at in
      let was : (k : ℕ) (x : Overflow) → held r.1 k ≡ some x → held a k ≡ some x = λ k x there.
        elim (same_or oi k) [
          | inl same ↦ absurd (ground (arith, stores.here, same, there))
          | inr ne ↦ sym (stores.elsewhere k ne) ∙ there
        ] in
      (
        r,
        run,
        record {
          same_slab = slab ∙ drop-empty s o e;
          stores = stores;
          valid = record {
            arena = valid;
            tables = λ k x there. v.tables k x (was k x there);
            huge_owner = λ k l h x y ex ey. v.huge_owner k l h x y (was k x ex) (was l y ey);
          };
        },
      )
