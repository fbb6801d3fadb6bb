-- ===== src/Overflow/Vector.antt =====
-- `ArrayVec` of the crate `arrayvec`, which the huge tables use and do not implement: a vector with
-- a fixed capacity, whose `push` panics when it is full. `bounded_list` has the laws.
use radixox.Common.{
  ℕ, ◌<◌, ◌≤◌, ◌≡◌, refl, ltb, if◌then◌else◌, List, [], ◌∷◌, ◌++◌, Run, ok, panic, arith, length,
  swap_remove as list_swap_remove,
}

pub record ArrayVec (E : Type 0) (capacity : ℕ) : Type 1 where
  pub Vec : Type 0
  -- `iter`
  pub entries : Vec → List E
  -- `new_const`
  pub empty : Vec
  pub push : Vec → E → Run Vec
  -- the vector that `push` leaves while there is room
  pub pushed : Vec → E → Vec
  pub swap_remove : Vec → ℕ → Vec
  pub entries-empty : entries empty ≡ []
  pub push-room : (v : Vec) (e : E) → length (entries v) < capacity → push v e ≡ ok (pushed v e)
  pub push-full : (v : Vec) (e : E) → capacity ≤ length (entries v) → push v e ≡ panic
  pub entries-pushed : (v : Vec) (e : E) → entries (pushed v e) ≡ entries v ++ e ∷ []
  pub entries-swap_remove :
      (v : Vec) (i : ℕ)
      → i < length (entries v)
      → entries (swap_remove v i) ≡ list_swap_remove (entries v) i

module _ (E : Type 0) (capacity : ℕ) where
  pub list_push-room :
      (v : List E) (e : E)
      → length v < capacity
      → ◌≡◌ {A = Run (List E)}
          (if ltb (length v) capacity then ok (v ++ e ∷ []) else panic)
          (ok (v ++ e ∷ []))
  list_push-room v e h = ground arith

  pub list_push-full :
      (v : List E) (e : E)
      → capacity ≤ length v
      → ◌≡◌ {A = Run (List E)} (if ltb (length v) capacity then ok (v ++ e ∷ []) else panic) panic
  list_push-full v e h = ground arith

  abbrev pub bounded_list : ArrayVec E capacity
  bounded_list = record {
    Vec = List E;
    entries = λ v. v;
    empty = [];
    push = λ v e. if ltb (length v) capacity then ok (v ++ e ∷ []) else panic;
    pushed = λ v e. v ++ e ∷ [];
    swap_remove = list_swap_remove;
    entries-empty = refl;
    push-room = list_push-room;
    push-full = list_push-full;
    entries-pushed = λ v e. refl;
    entries-swap_remove = λ v i h. refl;
  }
