-- ===== src/Hash.antt =====
-- `InnerHCommand` of oxidart/src/hcommand.rs: the fields of a hash, a vector as long as there are few,
-- and a hash map from then on.
pub mod Entries
pub mod Laws
use radixox.Common.{
  ℕ, zero, suc, ◌+◌, ◌-◌, Bool, true, false, not, leb, ◌==◌, if◌then◌else◌, List, [], ◌∷◌, ◌++◌,
  Option, none, some, length, get_or, swap_remove, init, last_or, same_bytes,
}
use radixox.Hash.Entries.{Fields, find, has, overwrite, put, put_all, position, erase}

abbrev pub threshold : ℕ
threshold = 16

pub data Hash : Type 0 where
  small large : Fields → Hash

abbrev pub new : Hash
new = small []

-- Whether the field is new, and the hash.
unfoldable pub insert : List ℕ → List ℕ → Hash → Bool × Hash
insert field value (small vec) =
    if has field vec
    then (false, small (overwrite field value vec))
    else if leb threshold (length vec)
    then (true, large (put field value (put_all vec [])))
    else (true, small (vec ++ (field, value) ∷ []))
insert field value (large map) = (not (has field map), large (put field value map))

abbrev pub entries : Hash → Fields
entries (small vec) = vec
entries (large map) = map

-- A hash map may begin with any entry.
unfoldable pub pop : Hash → Option (List ℕ) × Hash
pop (small []) = (none, small [])
pop (small (e ∷ es)) = (some (last_or e es).1, small (init e es))
pop (large []) = (none, large [])
pop (large (e ∷ es)) = (some e.1, large (erase e.0 (e ∷ es)))

abbrev pub len : Hash → ℕ
len h = length (entries h)

abbrev pub is_empty : Hash → Bool
is_empty h = len h == 0

unfoldable pub get : List ℕ → Hash → Option (List ℕ)
get field (small vec) = find field vec
get field (large map) = find field map

unfoldable pub del : List ℕ → Hash → Option (List ℕ) × Hash
del field (small vec) = elim (position field vec) [
  | none ↦ (none, small vec)
  | some pos ↦ (some (get_or vec pos ([], [])).1, small (swap_remove vec pos))
]
del field (large map) = (find field map, large (erase field map))

unfoldable pub contains_key : List ℕ → Hash → Bool
contains_key field h = has field (entries h)

abbrev flat : Fields → List (List ℕ)
flat [] = []
flat (e ∷ es) = e.0 ∷ e.1 ∷ flat es

abbrev firsts : Fields → List (List ℕ)
firsts [] = []
firsts (e ∷ es) = e.0 ∷ firsts es

abbrev seconds : Fields → List (List ℕ)
seconds [] = []
seconds (e ∷ es) = e.1 ∷ seconds es

unfoldable pub all : Hash → List (List ℕ)
all h = flat (entries h)

unfoldable pub keys : Hash → List (List ℕ)
keys h = firsts (entries h)

unfoldable pub values : Hash → List (List ℕ)
values h = seconds (entries h)
