-- ===== src/Tests/Hashes.antt =====
-- Hashes in both forms, and their laws at concrete inputs.
use radixox.Common.{ℕ, zero, suc, ◌≡◌, refl, [], ◌∷◌, some, arith}
use radixox.Hash.{Hash, small, large, insert, get, del}
use radixox.Hash.Laws.{IsValid, Puts, Deletes, insert-Puts, del-Deletes}

-- Fields of one byte.
abbrev up_to : ℕ → Hash → Hash
unfolding insert
up_to zero h = h
up_to (suc n) h = (insert (n ∷ []) (n ∷ []) (up_to n h)).1

is_large : Hash → ℕ
is_large (small vec) = 0
is_large (large map) = 1

-- The seventeenth field makes a map of the vector.
sixteen : is_large (up_to 16 (small [])) ≡ 0
unfolding up_to is_large
sixteen = refl

seventeen : is_large (up_to 17 (small [])) ≡ 1
unfolding up_to is_large
seventeen = refl

seventeen_read : get (3 ∷ []) (up_to 17 (small [])) ≡ some (3 ∷ [])
unfolding up_to get
seventeen_read = refl

abbrev two : Hash
two = small ((97 ∷ [], 1 ∷ []) ∷ (98 ∷ [], 2 ∷ []) ∷ [])

two_IsValid : IsValid two
two_IsValid = record { distinct = (refl, (refl, tt)); few = omega arith }

insert-Puts_example : Puts (97 ∷ []) (3 ∷ []) two (insert (97 ∷ []) (3 ∷ []) two)
insert-Puts_example = insert-Puts (97 ∷ []) (3 ∷ []) two two_IsValid

del-Deletes_example : Deletes (97 ∷ []) two (del (97 ∷ []) two)
del-Deletes_example = del-Deletes (97 ∷ []) two two_IsValid
