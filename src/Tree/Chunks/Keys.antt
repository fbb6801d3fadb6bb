-- ===== src/Tree/Chunks/Keys.antt =====
-- The collection of keys in chunks: `find_prefix_node`, `init_keys_stack`, `collect_keys_chunk` and
-- `getn_async` of oxidart/src/async_command.rs.
use radixox.Common.{
  ℕ, zero, suc, ◌-◌, take, ◌==◌, if◌then◌else◌, List, [], ◌∷◌, ◌++◌, map, Option, none, some, Run,
  ok, panic, ◌>>=◌, length,
}
use mathlib.Core.List.{reverse}
use radixox.Node.{Node, get_value}
use radixox.Tree.{
  Crates, Tree, Stop, missing, arrived, halted, dangling, try_get_node, get_node, descend_key,
}
use radixox.Tree.Link.{children}
use radixox.Tree.Chunks.{Turn, yield_budget}

-- The nodes to visit, each with the key up to its compressed part, and the keys found.
abbrev pub Keys : Type 0
Keys = List (ℕ × List ℕ) × List (List ℕ)

-- `stack.push((child_idx, child_key))`, for each child
abbrev pub pushed_keys : List ℕ → List (ℕ × ℕ) → List (ℕ × List ℕ) → List (ℕ × List ℕ)
pushed_keys key es stack = reverse (map (λ (e : ℕ × ℕ). (e.1, key ++ e.0 ∷ [])) es) ++ stack

abbrev pub found_key {ℓ} : {A : Type ℓ} → List ℕ → Option A → List (List ℕ)
found_key key none = []
found_key key (some v) = key ∷ []

abbrev pub compression_of : {V : Type 0} → Option (Node V) → List ℕ
compression_of none = []
compression_of (some node) = node.compression

abbrev pub after_keys :
    (List (ℕ × List ℕ) → List (List ℕ) → Option (Run (List (List ℕ))))
    → Run Keys
    → Option (Run (List (List ℕ)))
after_keys go panic = some panic
after_keys go (ok ([], keys)) = some (ok keys)
after_keys go (ok (e ∷ stack, keys)) = go (e ∷ stack) keys

module _ {V : Type 0} {m : Crates V} where
  -- What `find_prefix_node` returns where the loop ends. The key of a node that ends the prefix is the
  -- prefix, and a node that the prefix ends in has all of its compressed part in the key.
  finish_find : Tree m → List ℕ → Stop → Run (Option (ℕ × List ℕ))
  finish_find t key (arrived s) = ok (some (s.idx, key))
  finish_find t key (halted common_len s rest) =
      if common_len == length rest
      then (do
        node ← get_node t s.idx
        ok (some (s.idx, take (length key - length rest) key ++ node.compression)))
      else ok none
  finish_find t key (missing idx rest) = ok none
  finish_find t key dangling = ok none

  unfoldable pub find_prefix_node : Tree m → List ℕ → Run (Option (ℕ × List ℕ))
  unfolding finish_find
  find_prefix_node t [] = ok (some (t.root_idx, []))
  find_prefix_node t (r ∷ rest) = do s ← descend_key t (r ∷ rest); finish_find t (r ∷ rest) s

  unfoldable pub init_keys_stack : Tree m → ℕ → List ℕ → Run Keys
  init_keys_stack t start_idx key_path = elim (try_get_node t start_idx) [
    | none ↦ ok ([], [])
    | some node ↦ do
      es ← children t node
      ok (pushed_keys key_path es [], found_key key_path (get_value node t.now))
  ]

  -- What is done with a popped entry: a node that is gone is passed over.
  abbrev pub collected :
      (Unit {0} → Run Keys) → (List (ℕ × ℕ) → Run Keys) → Tree m → Option (Node V) → Run Keys
  collected pass next t none = pass tt
  collected pass next t (some node) = do es ← children t node; next es

  abbrev pub value_of : Tree m → Option (Node V) → Option V
  value_of t none = none
  value_of t (some node) = get_value node t.now

  unfoldable pub collect_keys_chunk : ℕ → Tree m → List (ℕ × List ℕ) → List (List ℕ) → Run Keys
  collect_keys_chunk zero t stack keys = ok (stack, keys)
  collect_keys_chunk (suc budget) t [] keys = ok ([], keys)
  collect_keys_chunk (suc budget) t (e ∷ stack) keys =
      let node = try_get_node t e.0 in
      let full_key = e.1 ++ compression_of node in
      collected (λ u. collect_keys_chunk (suc budget) t stack keys)
        (λ es.
          collect_keys_chunk budget t (pushed_keys full_key es stack)
            (keys ++ found_key full_key (value_of t node)))
        t node

  -- The loop over the chunks; the tree is the one that the other tasks leave. `none` means that the
  -- task has not come to its end after these turns.
  unfoldable pub collect_in_chunks :
      ℕ → List (Turn m) → Tree m → List (ℕ × List ℕ) → List (List ℕ) → Option (Run (List (List ℕ)))
  collect_in_chunks budget turns t [] keys = some (ok keys)
  collect_in_chunks budget [] t (e ∷ stack) keys = none
  collect_in_chunks budget (turn ∷ turns) t (e ∷ stack) keys =
      after_keys (collect_in_chunks budget turns (turn t))
        (collect_keys_chunk budget t (e ∷ stack) keys)

  abbrev pub started : List (Turn m) → Tree m → Run Keys → Option (Run (List (List ℕ)))
  started turns t panic = some panic
  started turns t (ok (stack, keys)) = collect_in_chunks yield_budget turns t stack keys

  abbrev pub from_prefix :
      List (Turn m) → Tree m → Run (Option (ℕ × List ℕ)) → Option (Run (List (List ℕ)))
  from_prefix turns t panic = some panic
  from_prefix turns t (ok none) = some (ok [])
  from_prefix turns t (ok (some s)) = started turns t (init_keys_stack t s.0 s.1)

  unfoldable pub getn_async : List (Turn m) → Tree m → List ℕ → Option (Run (List (List ℕ)))
  getn_async turns t prefix = from_prefix turns t (find_prefix_node t prefix)
