-- ===== src/Hash/Entries.antt =====
-- Entries under byte strings, searched from the front: vectors of pairs, and hash maps, of
-- oxidart/src/hcommand.rs.
pub mod Laws
pub mod Swap
use radixox.Common.{
  ℕ, zero, suc, Bool, true, false, if◌then◌else◌, List, [], ◌∷◌, ◌++◌, Option, none, some,
  same_bytes, succ?,
}

abbrev pub Fields : Type 0
Fields = List (List ℕ × List ℕ)

module _ {V : Type 0} where
  abbrev pub find : List ℕ → List (List ℕ × V) → Option V
  find q [] = none
  find q (e ∷ es) = if same_bytes q e.0 then some e.1 else find q es

  abbrev pub has : List ℕ → List (List ℕ × V) → Bool
  has q es = elim (find q es) [ none ↦ false | some v ↦ true ]

  -- `*v = value` for the first entry of the field
  abbrev pub overwrite : List ℕ → V → List (List ℕ × V) → List (List ℕ × V)
  overwrite f v [] = []
  overwrite f v (e ∷ es) = if same_bytes f e.0 then (e.0, v) ∷ es else e ∷ overwrite f v es

  -- `HashMap::insert`
  abbrev pub put : List ℕ → V → List (List ℕ × V) → List (List ℕ × V)
  put f v es = if has f es then overwrite f v es else es ++ (f, v) ∷ []

  -- `for (k, v) in vec.drain(..) { map.insert(k, v); }`
  abbrev pub put_all : List (List ℕ × V) → List (List ℕ × V) → List (List ℕ × V)
  put_all [] m = m
  put_all (e ∷ es) m = put_all es (put e.0 e.1 m)

  -- `iter().position(|(k, _)| k == &field)`
  abbrev pub position : List ℕ → List (List ℕ × V) → Option ℕ
  position f [] = none
  position f (e ∷ es) = if same_bytes f e.0 then some 0 else succ? (position f es)

  -- `HashMap::remove`
  abbrev pub erase : List ℕ → List (List ℕ × V) → List (List ℕ × V)
  erase f [] = []
  erase f (e ∷ es) = if same_bytes f e.0 then erase f es else e ∷ erase f es
