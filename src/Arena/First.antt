-- ===== src/Arena/First.antt =====
-- A slot of the arena that is handed out and given its first entry.
use radixox.Common.{
  ℕ, ◌<◌, ◌≡◌, ◌≢◌, sym, ◌∙◌, ◌==◌, ◌&&◌, if◌then◌else◌, inl, inr, List, none, some, ok, arith,
  length, no_index, same_or, subst,
}
use radixox.Overflow.{Overflow, Huge, default}
use radixox.Overflow
use radixox.Overflow.Laws
use radixox.Overflow.Laws.{HasRoom, Writes}
use radixox.Overflow.Push.{push-Writes}
use radixox.Arena.{Arena, alloc, put}
use radixox.Arena.Laws.{held, Allocs, alloc-Allocs}
use radixox.Arena.Store.{table_find, StoreIsValid, Writes-Updates}

module _ (huge : Huge) where
  open huge use {Slab}

  -- A slot that is handed out and given its first entry.
  pub record First (a : Arena) (s : Slab) (r i : ℕ) (slot : ℕ) (b : Arena) (t : Slab) : Type 0 where
    pub was_vacant : held a slot ≡ none
    pub ne_no_index : slot ≢ no_index
    pub rest : List ℕ
    pub valid : StoreIsValid huge rest b t
    pub filled : held b slot ≢ none
    pub kept : (oj : ℕ) → held a oj ≢ none → held b oj ≢ none
    pub reads :
        (oj q : ℕ)
        → table_find huge b t oj q
          ≡ (if slot == oj && r == q then some i else table_find huge a s oj q)

  module _ (vacant : List ℕ) (a : Arena) (s : Slab) (v : StoreIsValid huge vacant a s) where
    -- The store with an empty table in a slot that was vacant.
    alloc-StoreIsValid :
        (slot : ℕ) (b : Arena)
        → (w : Allocs a vacant (slot, b))
        → StoreIsValid huge w.rest b s
          × ((oj q : ℕ) → table_find huge b s oj q ≡ table_find huge a s oj q)
    alloc-StoreIsValid slot b w = (
      record {
        arena = w.valid;
        tables = λ oj x e. elim (same_or slot oj) [
          | inl same ↦
              subst (Overflow.Laws.IsValid huge s) (ground (arith, same, e, w.stores.here))
                (Overflow.Laws.default-IsValid huge s)
          | inr ne ↦ v.tables oj x (sym (w.stores.elsewhere oj ne) ∙ e)
        ];
        huge_owner = λ i j h x y ex ey bx by. elim (same_or slot i) [
          | inl same ↦ absurd (ground (arith, same, ex, bx, w.stores.here))
          | inr ni ↦ elim (same_or slot j) [
            | inl same ↦ absurd (ground (arith, same, ey, by, w.stores.here))
            | inr nj ↦
                v.huge_owner i j h x y (sym (w.stores.elsewhere i ni) ∙ ex)
                  (sym (w.stores.elsewhere j nj) ∙ ey) bx by
          ]
        ];
      },
      λ oj q. elim (same_or slot oj) [
        | inl same ↦
            ground (arith, same, w.stores.here, w.was_vacant, Overflow.Laws.find-default huge s q)
        | inr ne ↦ ground (arith, w.stores.elsewhere oj ne)
      ],
    )

    -- In a valid store of fewer than `u32::MAX` slots, `alloc` and the first `push` do not panic: the
    -- new slot was vacant and is not `u32::MAX`, the store is valid afterwards, the new table has its
    -- one entry, and all other tables stay and read as before.
    pub alloc-First :
        (r i : ℕ)
        → length a.slots < no_index
        → (slot : ℕ) × (b : Arena) × (t : Slab) × (p : Overflow) × (alloc a ≡ ok (slot, b))
          × (held b slot ≡ some default)
          × (Overflow.push huge s default r i ≡ ok (t, p))
          × First a s r i slot (put b slot p) t
    alloc-First r i room =
        let ((slot, b), run, w) = alloc-Allocs vacant a v.arena room in
        let (valid, same) = alloc-StoreIsValid slot b w in
        let ((t, p), pushed, u) =
          push-Writes huge s default (Overflow.Laws.default-IsValid huge s) r i
            (Overflow.Laws.find-default huge s r) (inl (omega arith)) in
        let (stored, d) =
          Writes-Updates huge w.rest b s valid slot default w.stores.here r (some i) t p u in
        (
          slot,
          b,
          t,
          p,
          run,
          w.stores.here,
          pushed,
          record {
            was_vacant = w.was_vacant;
            ne_no_index = w.ne_no_index;
            rest = w.rest;
            valid = stored;
            filled = λ n. ground (arith, (d.occupied slot).0 n, w.stores.here);
            kept = λ oj there n. elim (same_or slot oj) [
              | inl e ↦ there (ground (arith, e, w.was_vacant))
              | inr ne ↦ there (sym (w.stores.elsewhere oj ne) ∙ (d.occupied oj).0 n)
            ];
            reads = λ oj q. ground (arith, d.reads oj q, same oj q);
          },
        )
