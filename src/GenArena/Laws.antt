-- ===== src/GenArena/Laws.antt =====
-- Which arenas are well-formed.
use radixox.Common.{
  ℕ, suc, ◌^◌, ◌<◌, ◌≡◌, refl, ◌==◌, if◌then◌else◌, inl, inr, List, [], Option, none, some, same_or,
  arith, length, get_elem?, get_elem?-lt, get_elem?-set_self, get_elem?-set_ne, set, no_index,
}
use radixox.FreeList.{Chain, Once}
use radixox.GenArena.{Slot, GenArena, new}

module _ {A : Type 0} where
  abbrev pub next_of : List (Slot A) → ℕ → Option ℕ
  next_of slots i = elim (get_elem? slots i) [
    | none ↦ none
    | some s ↦ elim s.data_held [ none ↦ some s.next_free | some x ↦ none ]
  ]

  -- The free list runs through `vacant`, without repetition; every index fits 32 bits and is not
  -- `u32::MAX`; every generation fits 32 bits.
  pub record IsValid (vacant : List ℕ) (a : GenArena A) : Type 0 where
    pub chain : Chain (next_of a.slots) a.free_head vacant
    pub once : Once vacant
    pub small : length a.slots < suc no_index
    pub generations : (i : ℕ) (s : Slot A) → get_elem? a.slots i ≡ some s → s.generation < 2 ^ 32

  pub new-IsValid : IsValid [] (new {A = A})
  new-IsValid = record { chain = refl; once = tt; small = omega arith; generations = λ i s e. cc }

  pub get_elem?-set_at :
      (slots : List (Slot A)) (i : ℕ) (s y : Slot A)
      → get_elem? slots i ≡ some s
      → (j : ℕ) → get_elem? (set slots i y) j ≡ (if i == j then some y else get_elem? slots j)
  get_elem?-set_at slots i s y at j = elim (same_or i j) [
    | inl same ↦ ground (arith, same, get_elem?-set_self slots i y (get_elem?-lt slots i s at))
    | inr ne ↦ ground (arith, ne, get_elem?-set_ne slots i j y ne)
  ]
