-- ===== src/Tests/HashCommands.antt =====
-- A tree with a hash, alive and past its time, and the laws of `cmd_hset` there.
use radixox.Common.{
  ℕ, zero, suc, ◌+◌, ◌*◌, ◌≡◌, refl, true, false, List, [], ◌∷◌, Option, none, some, inr, ok, panic,
  arith, replicate, no_index,
}
use radixox.Childs
use radixox.Arena
use radixox.Expiry
use radixox.Node.{Node, is_expired, compare_compression_key}
use radixox.Tree.{Tree, descend, find}
use radixox.Tree.Insert.{ensure_key}
use radixox.Value.{Value, hash}
use radixox.Hash.{Hash, small, get}
use radixox.Hash.Laws.{IsValid}
use radixox.Value.HashCommands.{cmd_hset}
use radixox.Value.HashCommands.Laws.{overlaid, Writes, cmd_hset-expired, cmd_hset-overlaid}
use radixox.Tests.Counters.{crates}
use radixox.Tests.OneKey.{tree-Held}
use radixox.Tests.TwoNodes

abbrev one_field : Hash
one_field = small ((102 ∷ [], 1 ∷ []) ∷ [])

-- The node of the key "ab", whose hash has a time of 5.
abbrev leaf : Node (Value ℕ)
leaf = record {
  compression = 98 ∷ [];
  childs = record { idxs = replicate 6 no_index; radixs = replicate 6 0; len = 0 };
  val = some (hash one_field);
  exp_and_radix = 98 * 72057594037927936 + 5;
  overflow_idx = no_index;
  parent_idx = 0;
}

abbrev root : Node (Value ℕ)
root = record {
  compression = [];
  childs = record { idxs = 1 ∷ replicate 5 no_index; radixs = 97 ∷ replicate 5 0; len = 1 };
  val = none;
  exp_and_radix = 72057594037927935;
  overflow_idx = no_index;
  parent_idx = no_index;
}

abbrev cells : ℕ → Option (Node (Value ℕ))
cells zero = some root
cells (suc zero) = some leaf
cells (suc (suc i)) = none

abbrev tree_at : ℕ → Tree crates
tree_at now = record {
  map = record { used = 2; cell = cells; mark = λ i. false };
  overflow_arena = Arena.new;
  huge_ovf = crates.huge.slab.empty;
  now = now;
  root_idx = 0;
}

ensure_key_late : ensure_key (tree_at 6) (97 ∷ 98 ∷ []) ≡ ok (1, tree_at 6)
unfolding ensure_key find descend compare_compression_key Childs.find
ensure_key_late = refl

leaf_late : is_expired leaf 6 ≡ true
unfolding is_expired Expiry.exp
leaf_late = refl

abbrev held : Tree (TwoNodes.crates (Value ℕ))
held = TwoNodes.tree (hash one_field)

one_field-IsValid : IsValid one_field
one_field-IsValid = record { distinct = (refl, tt); few = omega arith }

cmd_hset-expired_example :
    cmd_hset (tree_at 6) (97 ∷ 98 ∷ []) ((102 ∷ [], 2 ∷ []) ∷ []) none ≡ panic
cmd_hset-expired_example =
    cmd_hset-expired (tree_at 6) (tree_at 6) (97 ∷ 98 ∷ []) ((102 ∷ [], 2 ∷ []) ∷ []) 1 leaf
      ensure_key_late refl leaf_late

cmd_hset-overlaid_example :
    (h' : Hash) × IsValid h'
    × ((q : List ℕ) → get q h' ≡ overlaid ((102 ∷ [], 2 ∷ []) ∷ []) q (get q one_field))
    × (added : ℕ) × (t' : Tree (TwoNodes.crates (Value ℕ))) × (cmd_hset held
          (97 ∷ 98 ∷ [])
          ((102 ∷ [], 2 ∷ []) ∷ [])
          none
        ≡ ok (inr added, t'))
    × Writes held 1 (TwoNodes.leaf (hash one_field)) (hash h') t'
cmd_hset-overlaid_example =
    cmd_hset-overlaid held (97 ∷ 98 ∷ []) ((102 ∷ [], 2 ∷ []) ∷ []) none 1
      (TwoNodes.leaf (hash one_field)) one_field (tree-Held (hash one_field)) one_field-IsValid
