-- ===== src/Childs.antt =====
-- The first children of a node, in the node itself: `Childs` of oxidart/src/node_childs.rs, two
-- arrays of six cells and the number of cells in use.
pub mod Cells
pub mod Laws
use Prim.Native.Nat.{ℕ}
use radixox.Common.{
  zero, suc, ◌+◌, ◌-◌, Bool, not, ◌&&◌, ◌==◌, if◌then◌else◌, List, [], ◌∷◌, Option, none, some, Run,
  ok, assert, ◌>>=◌, ◌>>◌, no_index, get_or, set, take, replicate, succ?,
}

abbrev pub childs_size : ℕ
childs_size = 6

pub record Childs : Type 0 where
  pub idxs : List ℕ
  pub radixs : List ℕ
  pub len : ℕ

abbrev pub default : Childs
default = record { idxs = replicate 6 no_index; radixs = replicate 6 0; len = 0 }

-- The loop over `0..len`.
abbrev pub find_loop : ℕ → List ℕ → List ℕ → ℕ → Option ℕ
find_loop zero radixs idxs r = none
find_loop (suc n) (a ∷ radixs) (i ∷ idxs) r = if a == r then some i else find_loop n radixs idxs r
find_loop (suc n) _ _ r = none

unfoldable pub find : Childs → ℕ → Option ℕ
find c r = find_loop c.len c.radixs c.idxs r

unfoldable pub is_full : Childs → Bool
is_full c = c.len == childs_size

unfoldable pub is_empty : Childs → Bool
is_empty c = c.len == 0

-- A full table and the radix 0 are refused by an assertion.
unfoldable pub push : Childs → ℕ → ℕ → Run Childs
unfolding is_full
push c r i = do
  assert (not (is_full c) && not (r == 0))
  ok (record { idxs = set c.idxs c.len i; radixs = set c.radixs c.len r; len = c.len + 1 })

-- `radixs[..len].iter().position(|&c| c == radix)`
abbrev pub index_of : ℕ → List ℕ → Option ℕ
index_of r [] = none
index_of r (a ∷ radixs) = if a == r then some 0 else succ? (index_of r radixs)

-- The last cell in use takes the place of the removed one.
abbrev pub remove_at : Childs → ℕ → Childs
remove_at c pos =
    let last = c.len - 1 in
    record {
      idxs = set c.idxs pos (get_or c.idxs last 0);
      radixs = set c.radixs pos (get_or c.radixs last 0);
      len = last;
    }

unfoldable pub remove : Childs → ℕ → Option ℕ × Childs
remove c r = elim (index_of r (take c.len c.radixs)) [
  | none ↦ (none, c)
  | some pos ↦ (some (get_or c.idxs pos 0), remove_at c pos)
]

-- `(0..len).map(|i| (self.radixs[i], self.idxs[i]))`
abbrev pub iter_loop : ℕ → List ℕ → List ℕ → List (ℕ × ℕ)
iter_loop zero radixs idxs = []
iter_loop (suc n) (a ∷ radixs) (i ∷ idxs) = (a, i) ∷ iter_loop n radixs idxs
iter_loop (suc n) _ _ = []

unfoldable pub iter : Childs → List (ℕ × ℕ)
iter c = iter_loop c.len c.radixs c.idxs

unfoldable pub old_get_single_child : Childs → Option (ℕ × ℕ)
old_get_single_child c = if c.len == 1 then some (get_or c.radixs 0 0, get_or c.idxs 0 0) else none
