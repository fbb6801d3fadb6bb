-- ===== src/Tests/Links.antt =====
-- What the laws of the links say of a tree of two nodes, and what a write to it does.
use radixox.Common.{ℕ, ◌≡◌, ◌≢◌, refl, [], ◌∷◌, none, some, inr, ◌⊎◌, List, ok, arith, Returns}
use radixox.Childs
use radixox.Node.{Node, get_overflow_idx}
use radixox.Tree.{Tree, try_get_node, traverse_to_key}
use radixox.Tree.Link.{push_child_idx, remove_child}
use radixox.Tree.Insert.{set_internal}
use radixox.Tree.Remove.{get}
use radixox.Tree.Write.Read.{get-set_internal}
use radixox.Tree.Descent.{Walks, traverse_to_key-Walks}
use radixox.Tree.Clock.{get_ttl, key_not_exist}
use radixox.Tree.Ttl.{ttl_of, get_ttl-Walks}
use radixox.Tree.Shape.{child_of, IsValid, RoomFor}
use radixox.Tree.Shape.Attach.{Attached, push_child_idx-Attached}
use radixox.Tree.Shape.Detach.{Detached, remove_child-Detached}
use radixox.Tests.TwoNodes.{crates, root, leaf, tree, tree-IsValid, walk_to_ab}

abbrev pair : Tree (crates ℕ)
pair = tree 7

no_98 : child_of pair 0 98 ≡ none
unfolding Childs.find get_overflow_idx
no_98 = refl

root_room : RoomFor pair (root 7)
unfolding get_overflow_idx
root_room = record { slots = omega arith; cells = λ oi o e there. cc }

push_child_idx-Attached_example : Returns (push_child_idx pair 0 5 98) (Attached pair 0 98 5)
push_child_idx-Attached_example =
    push_child_idx-Attached [] pair (tree-IsValid 7) 0 (root 7) refl 98 5 no_98 (omega arith)
      root_room

traverse_to_key-Walks_example : Returns (traverse_to_key pair (97 ∷ 98 ∷ [])) (λ o.
    (j : ℕ)
    → (o ≡ some j → Walks pair 0 (97 ∷ 98 ∷ []) j) × (Walks pair 0 (97 ∷ 98 ∷ []) j → o ≡ some j))
traverse_to_key-Walks_example = traverse_to_key-Walks [] pair (tree-IsValid 7) (97 ∷ 98 ∷ [])

remove_child-Detached_example : Returns (remove_child pair 0 97) (Detached pair 0 97)
remove_child-Detached_example = remove_child-Detached [] pair (tree-IsValid 7) 0 97

root_is_there : try_get_node pair 0 ≢ none
root_is_there e = cc

get_ttl-Walks_example : Returns (get_ttl pair (97 ∷ 98 ∷ [])) (λ r.
    ((j : ℕ) × (n : Node ℕ) × Walks pair 0 (97 ∷ 98 ∷ []) j
      × (try_get_node pair j ≡ some n)
      × (r ≡ ttl_of n 0))
    ⊎ (((j : ℕ) → ¬ (Walks pair 0 (97 ∷ 98 ∷ []) j)) × (r ≡ key_not_exist)))
get_ttl-Walks_example = get_ttl-Walks [] pair (tree-IsValid 7) root_is_there (97 ∷ 98 ∷ [])

get-set_internal_example : Returns (set_internal pair (97 ∷ 98 ∷ []) 60 9) (λ t'.
    IsValid [] t'
    × (get t' (97 ∷ 98 ∷ []) ≡ ok (some 9, t'))
    × ((other : List ℕ) → traverse_to_key t' other ≡ traverse_to_key pair other)
    × ((i : ℕ) → 1 ≢ i → try_get_node t' i ≡ try_get_node pair i))
get-set_internal_example =
    get-set_internal [] pair (97 ∷ 98 ∷ []) 60 9 1 (leaf 7) (tree-IsValid 7) (walk_to_ab 7) refl
      (omega arith) (omega arith) (inr (omega arith))
