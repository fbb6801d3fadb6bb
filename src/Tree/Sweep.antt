-- ===== src/Tree/Sweep.antt =====
-- Whole subtrees: `getn` and `deln` of oxidart/src/lib.rs.
pub mod Ends
use radixox.Common.{
  ℕ, zero, suc, ◌+◌, ◌-◌, take, ◌==◌, Bool, true, false, not, if◌then◌else◌, List, [], ◌∷◌, ◌++◌,
  map, Option, none, some, Run, ok, panic, expect, ◌>>=◌, length,
}
use mathlib.Core.List.{reverse}
use radixox.Childs
use radixox.Arena
use radixox.Node.{Node, has_val, take_val, get_value, get_overflow_idx}
use radixox.Tree.{
  Crates, Tree, Stop, Spot, missing, arrived, halted, dangling, try_get_node, get_node, put_node,
  descend_key,
}
use radixox.Tree.Link.{children, remove_child, try_recompress}

-- `stack.extend(children)`
abbrev pub pushed : List (ℕ × ℕ) → List ℕ → List ℕ
pushed es stack = reverse (map (λ (e : ℕ × ℕ). e.1) es) ++ stack

module _ {V : Type 0} where
  -- The entry of a node, if it has a value.
  abbrev pub entry_of : List ℕ → Option V → List (List ℕ × V)
  entry_of key none = []
  entry_of key (some v) = (key, v) ∷ []

  -- `collect_all` on each child, in their order.
  abbrev pub collect_each :
      (ℕ → List ℕ → Run (List (List ℕ × V))) → List ℕ → List (ℕ × ℕ) → Run (List (List ℕ × V))
  collect_each collect key [] = ok []
  collect_each collect key (e ∷ es) = do
    found ← collect e.1 (key ++ e.0 ∷ [])
    rest ← collect_each collect key es
    ok (found ++ rest)

module _ {V : Type 0} {m : Crates V} where
  -- `collect_all_from`, with the recursion that it starts.
  abbrev pub collect_from :
      (ℕ → List ℕ → Run (List (List ℕ × V))) → Tree m → ℕ → List ℕ → Run (List (List ℕ × V))
  collect_from collect t idx key = elim (try_get_node t idx) [
    | none ↦ ok []
    | some node ↦ do
      es ← children t node
      rest ← collect_each collect key es
      ok (entry_of key (get_value node t.now) ++ rest)
  ]

  -- The fuel is the depth of the stack: a deeper recursion overflows it.
  unfoldable pub collect_all : ℕ → Tree m → ℕ → List ℕ → Run (List (List ℕ × V))
  collect_all zero t idx key = panic
  collect_all (suc fuel) t idx key = elim (try_get_node t idx) [
    | none ↦ ok []
    | some node ↦ do
      es ← children t node
      rest ← collect_each (collect_all fuel t) (key ++ node.compression) es
      ok (entry_of (key ++ node.compression) (get_value node t.now) ++ rest)
  ]

  -- The lines of the loop of `free_subtree_iterative` behind the lookup: the children, and the tree
  -- without the node.
  abbrev pub free_node : Tree m → ℕ → Node V → Run (List (ℕ × ℕ) × Tree m)
  free_node t idx node = do
    es ← children t node
    elim (get_overflow_idx node) [
      | none ↦ ok (es, record t { map = m.nodes.remove t.map idx })
      | some oi ↦ do
        (s, arena) ← Arena.free m.huge t.huge_ovf t.overflow_arena oi
        ok (es, record t { map = m.nodes.remove t.map idx; huge_ovf = s; overflow_arena = arena })
    ]

  -- What the loop does with a popped index: a node that is gone is passed over.
  abbrev pub freed :
      (Bool → List (ℕ × ℕ) → Tree m → Option (Run (ℕ × Tree m)))
      → Bool
      → Run (List (ℕ × ℕ) × Tree m)
      → Option (Run (ℕ × Tree m))
  freed next counted panic = some panic
  freed next counted (ok (es, t)) = next counted es t

  abbrev pub visit :
      (Unit {0} → Option (Run (ℕ × Tree m)))
      → (Bool → List (ℕ × ℕ) → Tree m → Option (Run (ℕ × Tree m)))
      → Tree m
      → ℕ
      → Option (Node V)
      → Option (Run (ℕ × Tree m))
  visit pass next t idx none = pass tt
  visit pass next t idx (some node) = freed next (has_val node) (free_node t idx node)

  -- The loop, with the top of the stack in front. The fuel is the number of nodes that it may free;
  -- `none` means that it has run out.
  unfoldable pub free_loop : ℕ → List ℕ → ℕ → Tree m → Option (Run (ℕ × Tree m))
  free_loop fuel [] count t = some (ok (count, t))
  free_loop zero (idx ∷ stack) count t =
      visit (λ u. free_loop zero stack count t) (λ counted es t'. none) t idx (try_get_node t idx)
  free_loop (suc fuel) (idx ∷ stack) count t =
      visit (λ u. free_loop (suc fuel) stack count t)
        (λ counted es t'.
          free_loop fuel (pushed es stack) (if counted then count + 1 else count) t')
        t idx (try_get_node t idx)

  -- The root stays, without its value and its `childs`; its overflow table stays too.
  unfoldable pub clear_root : Tree m → Node V → Tree m
  clear_root t root = put_node t t.root_idx (record (take_val root).1 { childs = Childs.default })

  -- What follows once the children of the root are listed.
  abbrev pub swept : ℕ → Tree m → Node V → Run (List (ℕ × ℕ)) → Option (Run (ℕ × Tree m))
  swept fuel t root panic = some panic
  swept fuel t root (ok es) =
      free_loop fuel (reverse (map (λ (e : ℕ × ℕ). e.1) es)) (if has_val root then 1 else 0)
        (clear_root t root)

  abbrev pub sweep_root : ℕ → Tree m → Option (Node V) → Option (Run (ℕ × Tree m))
  sweep_root fuel t none = some panic
  sweep_root fuel t (some root) = swept fuel t root (children t root)

  -- `deln` of the empty prefix: the children are listed before the root is cleared.
  unfoldable pub deln_all : ℕ → Tree m → Option (Run (ℕ × Tree m))
  unfolding clear_root
  deln_all fuel t = sweep_root fuel t (try_get_node t t.root_idx)

  -- What `getn` does where the loop ends; `key` is the prefix. A key below a prefix that ends within the
  -- compressed part of a node has all of that part.
  finish_getn : ℕ → Tree m → List ℕ → Stop → Run (List (List ℕ × V))
  finish_getn stack t key (arrived s) = collect_from (collect_all stack t) t s.idx key
  finish_getn stack t key (halted common_len s rest) =
      if common_len == length rest
      then (do
        node ← get_node t s.idx
        collect_from (collect_all stack t) t s.idx
            (take (length key - length rest) key ++ node.compression))
      else ok []
  finish_getn stack t key (missing idx rest) = ok []
  finish_getn stack t key dangling = ok []

  unfoldable pub getn : ℕ → Tree m → List ℕ → Run (List (List ℕ × V))
  unfolding finish_getn
  getn stack t [] = collect_all stack t t.root_idx []
  getn stack t (r ∷ rest) = do s ← descend_key t (r ∷ rest); finish_getn stack t (r ∷ rest) s

  -- The lines of `deln` behind the loop that frees.
  abbrev pub unlinked : Spot → Option (Run (ℕ × Tree m)) → Option (Run (ℕ × Tree m))
  unlinked s none = none
  unlinked s (some run) = some (do
    (n, t) ← run
    if not (s.parent_idx == t.root_idx)
        then (do t ← try_recompress t s.parent_idx; ok (n, t))
        else ok (n, t))

  -- The link to the subtree is cut before the subtree is freed.
  cut_off : ℕ → Tree m → Spot → Option (Run (ℕ × Tree m))
  cut_off fuel t s = elim (remove_child t s.parent_idx s.parent_radix) [
    | panic ↦ some panic
    | ok t' ↦ unlinked s (free_loop fuel (s.idx ∷ []) 0 t')
  ]

  finish_deln : ℕ → Tree m → Stop → Option (Run (ℕ × Tree m))
  unfolding cut_off
  finish_deln fuel t (arrived s) = cut_off fuel t s
  finish_deln fuel t (halted common_len s rest) =
      if common_len == length rest then cut_off fuel t s else some (ok (0, t))
  finish_deln fuel t (missing idx rest) = some (ok (0, t))
  finish_deln fuel t dangling = some (ok (0, t))

  unfoldable pub deln : ℕ → Tree m → List ℕ → Option (Run (ℕ × Tree m))
  unfolding deln_all finish_deln
  deln fuel t [] = deln_all fuel t
  deln fuel t (r ∷ rest) = elim (descend_key t (r ∷ rest)) [
    | panic ↦ some panic
    | ok s ↦ finish_deln fuel t s
  ]
