-- ===== src/Tests/OneKey.antt =====
-- The value of the key "ab" is held where the commands look for it.
use radixox.Common.{refl, [], ◌∷◌}
use radixox.Expiry
use radixox.Node.{get_value, is_expired}
use radixox.Value.{Value}
use radixox.Value.Borrowed.Laws.{Held}
use radixox.Tests.TwoNodes.{tree, leaf, tree-IsValid, walk_to_ab}

pub tree-Held : {Z : Type 0} (v : Value Z) → Held (tree v) (97 ∷ 98 ∷ []) 1 (leaf v) v
unfolding get_value is_expired Expiry.exp
tree-Held v = record {
  vacant = [];
  valid = tree-IsValid v;
  way = walk_to_ab v;
  there = refl;
  alive = refl;
}
