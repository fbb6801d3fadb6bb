-- ===== src/Arena/Store.antt =====
-- The arena together with the thread's huge tables: all further children of the tree.
use radixox.Common.{
  ℕ, ◌≡◌, ◌≢◌, sym, ◌∙◌, ◌==◌, ◌&&◌, if◌then◌else◌, inl, inr, List, Option, none, some, arith,
  length-set, get_elem?, get_elem?-set_self, get_elem?-set_ne, get_elem?-lt, set, Option-cases,
  same_or, subst,
}
use radixox.Overflow.{Overflow, Huge, default}
use radixox.Overflow
use radixox.Overflow.Laws
use radixox.Overflow.Laws.{HasRoom, Writes}
use radixox.FreeList.{Chain-frame, NotIn-used}
use radixox.Arena.{Arena, item, free, put}
use radixox.Arena.Laws.{IsValid, Stores, held, next_of, held-item, items-put}

pub put-Stores :
    (vacant : List ℕ) (a : Arena) (i : ℕ) (o p : Overflow)
    → IsValid vacant a
    → held a i ≡ some o
    → IsValid vacant (put a i p) × Stores a i (some p) (put a i p)
unfolding put
put-Stores vacant a i o p v h = (
  record {
    chain =
        Chain-frame (next_of a.slots) (next_of (set a.slots i (item p))) i a.free_head vacant
          (λ j other. ground (arith, frame j other))
          (NotIn-used (next_of a.slots) i a.free_head vacant (λ n e. ground (arith, here, e))
            v.chain)
          v.chain;
    once = v.once;
    small = omega (arith, length-set a.slots i (item p), v.small);
    counted = omega (arith, items-put a.slots i o p here, v.counted);
  },
  record {
    here =
        ground
          (arith, get_elem?-set_self a.slots i (item p) (get_elem?-lt a.slots i (item o) here));
    elsewhere = λ j other. ground (arith, frame j other);
  },
)
  where
    here : get_elem? a.slots i ≡ some (item o)
    here = held-item a i o h

    frame : (j : ℕ) → i ≢ j → get_elem? (set a.slots i (item p)) j ≡ get_elem? a.slots j
    frame j other = get_elem?-set_ne a.slots i j (item p) other

module _ (huge : Huge) where
  open huge use {Slab}

  -- The child that the table in a slot has under a radix.
  abbrev pub table_find : Arena → Slab → ℕ → ℕ → Option ℕ
  table_find a s oi q = elim (held a oi) [ none ↦ none | some o ↦ Overflow.find huge s o q ]

  -- Every table is valid, and no huge table is shared.
  pub record StoreIsValid (vacant : List ℕ) (a : Arena) (s : Slab) : Type 0 where
    pub arena : IsValid vacant a
    pub tables : (oi : ℕ) (o : Overflow) → held a oi ≡ some o → Overflow.Laws.IsValid huge s o
    pub huge_owner :
        (oi oj h : ℕ) (o p : Overflow)
        → held a oi ≡ some o
        → held a oj ≡ some p
        → o.big_overflow_idx ≡ some h
        → p.big_overflow_idx ≡ some h
        → oi ≡ oj

  -- The slot `oi` reads `w` under the radix `r`; all else reads as before.
  pub record Updates (a : Arena) (s : Slab) (oi r : ℕ) (w : Option ℕ) (b : Arena) (t : Slab)
      : Type 0 where
    pub reads :
        (oj q : ℕ) → table_find b t oj q ≡ (if oi == oj && r == q then w else table_find a s oj q)
    pub occupied :
        (oj : ℕ) → (held b oj ≡ none → held a oj ≡ none) × (held a oj ≡ none → held b oj ≡ none)

  live_held :
      (s : Slab) (b : Option ℕ) (h : ℕ)
      → Overflow.Laws.IsLive huge s b
      → b ≡ some h
      → huge.slab.get s h ≢ none
  live_held s none h l e = cc
  live_held s (some k) h l e = λ n. ground (arith, l.1, e, n)

  module _ (vacant : List ℕ) (a : Arena) (s : Slab) (v : StoreIsValid vacant a s) (oi : ℕ)
      (o : Overflow) (at : held a oi ≡ some o) where
    -- A table in another slot does not see the write.
    other_table :
        (r : ℕ) (w : Option ℕ) (t : Slab) (p : Overflow)
        → Writes huge s o r w (t, p)
        → (oj : ℕ) (x : Overflow) → oi ≢ oj
        → held a oj ≡ some x
        → Overflow.Laws.IsValid huge t x
          × ((q : ℕ) → Overflow.find huge t x q ≡ Overflow.find huge s x q)
    other_table r w t p u oj x ne e =
        let valid = v.tables oj x e in
        Overflow.Laws.IsValid-frame huge s t x
          (λ h big.
            u.frame h (λ own. ne (v.huge_owner oi oj h o x at e own big))
              (live_held s x.big_overflow_idx h valid.live big))
          valid

    module _ (r : ℕ) (w : Option ℕ) (t : Slab) (p : Overflow) (u : Writes huge s o r w (t, p)) where
      written : IsValid vacant (put a oi p) × Stores a oi (some p) (put a oi p)
      written = put-Stores vacant a oi o p v.arena at

      tables :
          (oj : ℕ) (x : Overflow) → held (put a oi p) oj ≡ some x → Overflow.Laws.IsValid huge t x
      tables oj x e = elim (same_or oi oj) [
        | inl same ↦
            subst (Overflow.Laws.IsValid huge t) (ground (arith, same, e, written.1.here)) u.valid
        | inr ne ↦ (other_table r w t p u oj x ne (sym (written.1.elsewhere oj ne) ∙ e)).0
      ]

      -- The huge part of the written table belongs to no other table.
      apart :
          (oj h : ℕ) (y : Overflow)
          → oi ≢ oj
          → held a oj ≡ some y
          → p.big_overflow_idx ≡ some h
          → y.big_overflow_idx ≡ some h
          → ⊥
      apart oj h y ne e big big' = elim (u.fresh h big) [
        | inl own ↦ ne (v.huge_owner oi oj h o y at e own big')
        | inr free ↦ live_held s y.big_overflow_idx h (v.tables oj y e).live big' free
      ]

      was : (j : ℕ) (y : Overflow) → oi ≢ j → held (put a oi p) j ≡ some y → held a j ≡ some y
      was j y ne e = sym (written.1.elsewhere j ne) ∙ e

      own :
          (i : ℕ) (x : Overflow) (h : ℕ)
          → oi ≡ i
          → held (put a oi p) i ≡ some x
          → x.big_overflow_idx ≡ some h
          → p.big_overflow_idx ≡ some h
      own i x h same e big = ground (arith, same, e, big, written.1.here)

      huge_owner :
          (i j h : ℕ) (x y : Overflow)
          → held (put a oi p) i ≡ some x
          → held (put a oi p) j ≡ some y
          → x.big_overflow_idx ≡ some h
          → y.big_overflow_idx ≡ some h
          → i ≡ j
      huge_owner i j h x y ex ey bx by = elim (same_or oi i) [
        | inl ei ↦ elim (same_or oi j) [
          | inl ej ↦ sym ei ∙ ej
          | inr nj ↦ absurd (apart j h y nj (was j y nj ey) (own i x h ei ex bx) by)
        ]
        | inr ni ↦ elim (same_or oi j) [
          | inl ej ↦ absurd (apart i h x ni (was i x ni ex) (own j y h ej ey by) bx)
          | inr nj ↦ v.huge_owner i j h x y (was i x ni ex) (was j y nj ey) bx by
        ]
      ]

      reads :
          (oj q : ℕ)
          → table_find (put a oi p) t oj q ≡ (if oi == oj && r == q then w else table_find a s oj q)
      reads oj q = elim (same_or oi oj) [
        | inl same ↦ ground (arith, same, written.1.here, at, u.reads q)
        | inr ne ↦ elim (Option-cases (held a oj)) [
          | inl none_there ↦ ground (arith, ne, written.1.elsewhere oj ne, none_there)
          | inr (x, e) ↦
              ground
                (arith, ne, written.1.elsewhere oj ne, e, (other_table r w t p u oj x ne e).1 q)
        ]
      ]

      occupied :
          (oj : ℕ)
          → (held (put a oi p) oj ≡ none → held a oj ≡ none)
            × (held a oj ≡ none → held (put a oi p) oj ≡ none)
      occupied oj = elim (same_or oi oj) [
        | inl same ↦ (λ n. ground (arith, same, written.1.here), λ n. ground (arith, same, at))
        | inr ne ↦ (λ n. sym (written.1.elsewhere oj ne) ∙ n, λ n. written.1.elsewhere oj ne ∙ n)
      ]

      -- A write to one table is a write to the store.
      pub Writes-Updates : StoreIsValid vacant (put a oi p) t × Updates a s oi r w (put a oi p) t
      Writes-Updates = (
        record { arena = written.0; tables = tables; huge_owner = huge_owner },
        record { reads = reads; occupied = occupied },
      )
