-- ===== src/GenArena/Update.antt =====
-- A write through `get_mut` changes the value of its key alone.
use radixox.Common.{
  ◌≡◌, inl, inr, if◌then◌else◌, same_or, Option, none, some, Option-cases, arith, get_elem?,
}
use radixox.GenArena.{Key, GenArena, get, update, write_slot, same_key}
use radixox.GenArena.Laws.{get_elem?-set_at}

module _ {A : Type 0} where
  abbrev pub changed : (A → A) → Option A → Option A
  changed f none = none
  changed f (some x) = some (f x)

  -- A key that gives a value gives the changed value after the write; other keys give what they gave.
  pub get-update :
      (a : GenArena A) (key : Key) (f : A → A) (k : Key)
      → get (update a key f) k ≡ (if same_key key k then changed f (get a k) else get a k)
  unfolding get update
  get-update a key f k = elim (same_or key.idx k.idx) [
    | inl same ↦ elim (Option-cases (get_elem? a.slots key.idx)) [
      | inl off ↦ ground (arith, same, off)
      | inr (s, at) ↦
          ground (arith, same, at, get_elem?-set_at a.slots key.idx s (write_slot f s) at k.idx)
    ]
    | inr ne ↦ elim (Option-cases (get_elem? a.slots key.idx)) [
      | inl off ↦ ground (arith, ne, off)
      | inr (s, at) ↦
          ground (arith, ne, at, get_elem?-set_at a.slots key.idx s (write_slot f s) at k.idx)
    ]
  ]
