-- ===== src/Overflow.antt =====
-- The children that do not fit into a node: `HugeOverflow` and `Overflow` of
-- oxidart/src/node_childs.rs. An `Overflow` holds ten children in arrays and further ones in a
-- `HugeOverflow` of the thread's slab `HUGE_OVF`, which the operations here pass on.
pub mod Vector
pub mod Laws
pub mod Push
pub mod Remove
use radixox.Common.{
  ℕ, suc, ◌+◌, ◌-◌, Bool, true, false, ◌&&◌, ltb, ◌==◌, if◌then◌else◌, List, [], ◌∷◌, ◌++◌, Option,
  none, some, Run, ok, panic, expect, ◌>>=◌, no_index, get_or, set, take, replicate, lookup,
  position,
}
use radixox.Slab.{HiSlab}
use radixox.Childs.{find_loop, index_of, iter_loop}
use Vector.{ArrayVec}

abbrev pub light_overflow_size : ℕ
light_overflow_size = 10

abbrev pub huge_overflow_capacity : ℕ
huge_overflow_capacity = 121

-- The crates that the huge tables stand on.
pub record Huge : Type 1 where
  pub vec : ArrayVec (ℕ × ℕ) huge_overflow_capacity
  pub open vec use *
  pub slab : HiSlab Vec
  pub open slab use {Slab}

pub record Overflow : Type 0 where
  pub idxs : List ℕ
  pub radixs : List ℕ
  pub len : ℕ
  pub big_overflow_idx : Option ℕ

abbrev pub default : Overflow
default = record {
  idxs = replicate 10 no_index;
  radixs = replicate 10 0;
  len = 0;
  big_overflow_idx = none;
}

abbrev pub list_is_empty {ℓ} : {A : Type ℓ} → List A → Bool
list_is_empty [] = true
list_is_empty (x ∷ xs) = false

abbrev pub light_push : Overflow → ℕ → ℕ → Overflow
light_push o r i = record o {
  idxs = set o.idxs o.len i;
  radixs = set o.radixs o.len r;
  len = o.len + 1;
}

-- The last cell in use takes the place of the removed one.
abbrev pub light_remove : Overflow → ℕ → Overflow
light_remove o pos =
    let last = o.len - 1 in
    record o {
      idxs = set o.idxs pos (get_or o.idxs last 0);
      radixs = set o.radixs pos (get_or o.radixs last 0);
      len = last;
    }

unfoldable pub is_empty : Overflow → Bool
is_empty o = o.len == 0 && elim o.big_overflow_idx [ none ↦ true | some _ ↦ false ]

module _ (huge : Huge) where
  open huge use {Vec, Slab}

  -- `HugeOverflow::new`
  huge_new : ℕ → ℕ → Run Vec
  huge_new r i = huge.push huge.empty (r, i)

  huge_find : Vec → ℕ → Option ℕ
  huge_find v r = lookup r (huge.entries v)

  huge_remove : Vec → ℕ → Option (ℕ × Vec)
  huge_remove v r = elim (position r (huge.entries v)) [
    | none ↦ none
    | some pos ↦ some ((get_or (huge.entries v) pos (0, 0)).1, huge.swap_remove v pos)
  ]

  -- The second half of the search, in the thread's slab.
  unfoldable pub big_find : Slab → Option ℕ → ℕ → Option ℕ
  unfolding huge_find
  big_find s none r = none
  big_find s (some h) r = elim (huge.slab.get s h) [ none ↦ none | some v ↦ huge_find v r ]

  unfoldable pub find : Slab → Overflow → ℕ → Option ℕ
  unfolding big_find
  find s o r = elim (find_loop o.len o.radixs o.idxs r) [
    | some i ↦ some i
    | none ↦ big_find s o.big_overflow_idx r
  ]

  big_push : Slab → Overflow → Option ℕ → ℕ → ℕ → Run (Slab × Overflow)
  unfolding huge_new
  big_push s o (some h) r i = do
    v ← expect (huge.slab.get s h)
    w ← huge.push v (r, i)
    ok (huge.slab.set s h w, o)
  big_push s o none r i = do
    v ← huge_new r i
    (h, s') ← huge.slab.insert s v
    ok (s', record o { big_overflow_idx = some h })

  unfoldable pub push : Slab → Overflow → ℕ → ℕ → Run (Slab × Overflow)
  unfolding big_push
  push s o r i =
      if ltb o.len light_overflow_size
      then ok (s, light_push o r i)
      else big_push s o o.big_overflow_idx r i

  -- A huge table that has become empty is given back to the slab.
  abbrev big_store : Slab → Overflow → ℕ → ℕ × Vec → Option ℕ × Slab × Overflow
  big_store s o h (i, v) =
      if list_is_empty (huge.entries v)
      then (some i, huge.slab.remove (huge.slab.set s h v) h, record o { big_overflow_idx = none })
      else (some i, huge.slab.set s h v, o)

  big_remove : Slab → Overflow → Option ℕ → ℕ → Option ℕ × Slab × Overflow
  unfolding huge_remove
  big_remove s o none r = (none, s, o)
  big_remove s o (some h) r = elim (huge.slab.get s h) [
    | none ↦ (none, s, o)
    | some v ↦ elim (huge_remove v r) [ none ↦ (none, s, o) | some t ↦ big_store s o h t ]
  ]

  unfoldable pub remove : Slab → Overflow → ℕ → Option ℕ × Slab × Overflow
  unfolding big_remove
  remove s o r = elim (index_of r (take o.len o.radixs)) [
    | some pos ↦ (some (get_or o.idxs pos 0), s, light_remove o pos)
    | none ↦ big_remove s o o.big_overflow_idx r
  ]

  unfoldable pub big_iter : Slab → Option ℕ → List (ℕ × ℕ)
  big_iter s none = []
  big_iter s (some h) = elim (huge.slab.get s h) [ none ↦ [] | some v ↦ huge.entries v ]

  unfoldable pub iter : Slab → Overflow → List (ℕ × ℕ)
  unfolding big_iter
  iter s o = iter_loop o.len o.radixs o.idxs ++ big_iter s o.big_overflow_idx

  -- `drop_huge`: the slab after the huge table, if any, is given back
  unfoldable pub drop_huge : Slab → Overflow → Slab × Overflow
  drop_huge s o = elim o.big_overflow_idx [
    | none ↦ (s, o)
    | some h ↦ (huge.slab.remove s h, record o { big_overflow_idx = none })
  ]
