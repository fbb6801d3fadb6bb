-- ===== src/Tree/Remove.antt =====
-- Lookups, which remove an expired entry, and deletions: `get_idx`, `get`, `delete_node_inline` and
-- `del` of oxidart/src/lib.rs.
use radixox.Common.{ℕ, not, ◌==◌, List, [], ◌∷◌, Option, none, some, Run, ok, ◌>>=◌, if◌then◌else◌}
use radixox.Node.{is_expired, clear_val, take_val, get_value, has_children}
use radixox.Tree.{Crates, Tree, Stop, arrived, get_node, put_node, descend_key}
use radixox.Tree.Link.{remove_child, try_recompress}

module _ {V : Type 0} {m : Crates V} where
  -- A leaf is taken out of the slab and out of its parent; the root is not recompressed here.
  remove_leaf : Tree m → ℕ → ℕ → ℕ → Run (Tree m)
  remove_leaf t target_idx parent_idx parent_radix = do
    t' ← remove_child (record t { map = m.nodes.remove t.map target_idx }) parent_idx parent_radix
    if not (parent_idx == t.root_idx) then try_recompress t' parent_idx else ok t'

  unfoldable pub delete_node_inline : Tree m → ℕ → ℕ → ℕ → Run (Tree m)
  unfolding remove_leaf
  delete_node_inline t target_idx parent_idx parent_radix = do
    node ← get_node t target_idx
    if has_children node
        then try_recompress (put_node t target_idx (clear_val node)) target_idx
        else remove_leaf t target_idx parent_idx parent_radix

  -- What `get_idx` does where the loop ends.
  finish_get : Tree m → Stop → Run (Option ℕ × Tree m)
  finish_get t (arrived s) = do
    node ← get_node t s.idx
    if is_expired node t.now
        then (do t' ← delete_node_inline t s.idx s.parent_idx s.parent_radix; ok (none, t'))
        else ok (some s.idx, t)
  finish_get t _ = ok (none, t)

  unfoldable pub get_idx : Tree m → List ℕ → Run (Option ℕ × Tree m)
  unfolding finish_get
  get_idx t [] = do
    node ← get_node t t.root_idx
    if is_expired node t.now
        then (do
          t' ← try_recompress (put_node t t.root_idx (clear_val node)) t.root_idx
          ok (none, t'))
        else ok (some t.root_idx, t)
  get_idx t (r ∷ rest) = do s ← descend_key t (r ∷ rest); finish_get t s

  unfoldable pub get : Tree m → List ℕ → Run (Option V × Tree m)
  get t key = do
    (idx, t') ← get_idx t key
    elim idx [
      | none ↦ ok (none, t')
      | some i ↦ do node ← get_node t' i; ok (get_value node t'.now, t')
    ]

  -- What `del` does where the loop ends.
  finish_del : Tree m → Stop → Run (Option V × Tree m)
  unfolding remove_leaf take_val
  finish_del t (arrived s) = do
    node ← get_node t s.idx
    if has_children node
        then (elim node.val [
          | none ↦ ok (none, put_node t s.idx (take_val node).1)
          | some v ↦ do
            t' ← try_recompress (put_node t s.idx (take_val node).1) s.idx
            ok (some v, t')
        ])
        else (do t' ← remove_leaf t s.idx s.parent_idx s.parent_radix; ok (node.val, t'))
  finish_del t _ = ok (none, t)

  unfoldable pub del : Tree m → List ℕ → Run (Option V × Tree m)
  unfolding finish_del
  del t [] = do
    node ← get_node t t.root_idx
    t' ← try_recompress (put_node t t.root_idx (take_val node).1) t.root_idx
    ok (node.val, t')
  del t (r ∷ rest) = do s ← descend_key t (r ∷ rest); finish_del t s
