-- ===== src/Tree/Clock.antt =====
-- Expiry: `get_ttl`, `expire`, `persist` and `delete_node_for_eviction` of oxidart/src/lib.rs.
use radixox.Common.{
  ℕ, ◌+◌, ◌-◌, ◌^◌, min, Bool, true, false, not, ◌==◌, List, none, some, Run, ok, ◌>>=◌,
  if◌then◌else◌,
}
use radixox.Expiry
use radixox.Node.{Node, has_val, is_expired, clear_val, has_children}
use radixox.Tree.{Crates, Tree, try_get_node, get_node, put_node, traverse_to_key}
use radixox.Tree.Link.{remove_child, try_recompress}

pub data TtlResult : Type 0 where
  key_not_exist : TtlResult
  key_with_ttl : ℕ → TtlResult
  key_without_ttl : TtlResult

module _ {V : Type 0} {m : Crates V} where
  unfoldable pub get_ttl : Tree m → List ℕ → Run TtlResult
  get_ttl t key = do
    idx ← traverse_to_key t key
    elim idx [
      | none ↦ ok key_not_exist
      | some i ↦ do
        node ← get_node t i
        if is_expired node t.now then ok key_not_exist else (elim (Expiry.exp node.exp_and_radix) [
          | some e ↦ ok (key_with_ttl (e - t.now))
          | none ↦ ok key_without_ttl
        ])
    ]

  expire_node : Tree m → ℕ → Node V → ℕ → Run (Bool × Tree m)
  expire_node t i node secs = do
    let was_permanent = not (Expiry.does_expire node.exp_and_radix)
    e ← Expiry.set_exp node.exp_and_radix (min (t.now + secs) (2 ^ 64 - 1))
    let t' = put_node t i (record node { exp_and_radix = e })
    ok (if was_permanent then (true, record t' { map = m.nodes.tag t'.map i }) else (false, t'))

  unfoldable pub expire : Tree m → List ℕ → ℕ → Run (Bool × Tree m)
  unfolding expire_node
  expire t key secs = do
    idx ← traverse_to_key t key
    elim idx [
      | none ↦ ok (false, t)
      | some i ↦ do
        node ← get_node t i
        if is_expired node t.now then ok (false, t) else expire_node t i node secs
    ]

  -- The time is dropped before the value is looked for.
  unfoldable pub persist : Tree m → List ℕ → Run (Bool × Tree m)
  persist t key = do
    idx ← traverse_to_key t key
    elim idx [
      | none ↦ ok (false, t)
      | some i ↦ do
        node ← get_node t i
        let t' =
            put_node t i (record node { exp_and_radix = Expiry.set_no_expiracy node.exp_and_radix })
        if not (Expiry.does_expire node.exp_and_radix)
            then ok (false, t)
            else (if not (has_val node)
                then ok (false, t')
                else ok (true, record t' { map = m.nodes.untag t'.map i }))
    ]

  -- The link to remove is the one that the node itself remembers.
  unfoldable pub delete_node_for_eviction : Tree m → ℕ → ℕ → ℕ → Run (Tree m)
  delete_node_for_eviction t target_idx parent_idx parent_radix = elim (try_get_node t target_idx) [
    | none ↦ ok t
    | some node ↦
        if has_children node
        then (let t' = put_node t target_idx (clear_val node) in
            try_recompress (record t' { map = m.nodes.untag t'.map target_idx }) target_idx)
        else (do
          t' ←
              remove_child (record t { map = m.nodes.remove t.map target_idx }) parent_idx
                parent_radix
          if not (parent_idx == t.root_idx) then try_recompress t' parent_idx else ok t')
  ]
