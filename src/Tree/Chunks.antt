-- ===== src/Tree/Chunks.antt =====
-- The deletion of a subtree in chunks, between which other tasks run: `find_and_cut_prefix`,
-- `free_chunk` and `deln_async` of oxidart/src/async_command.rs.
pub mod Same
pub mod Keys
use radixox.Common.{
  ℕ, zero, suc, ◌+◌, not, ◌==◌, Bool, if◌then◌else◌, List, [], ◌∷◌, map, Option, none, some, Run,
  ok, panic, expect, ◌>>=◌, length,
}
use mathlib.Core.List.{reverse}
use radixox.Childs
use radixox.Node.{Node, has_val, is_expired}
use radixox.Tree.{
  Crates, Tree, Stop, Spot, missing, arrived, halted, dangling, try_get_node, get_node, put_node,
  descend_key,
}
use radixox.Tree.Link.{children, remove_child, try_recompress}
use radixox.Tree.Sweep.{free_node, pushed}

-- What `find_and_cut_prefix` returns: the stack, its top in front; the node to recompress; and the
-- number of deletions that are already counted.
pub record Cut : Type 0 where
  pub free_stack : List ℕ
  pub parent_idx : ℕ
  pub initial_count : ℕ

-- What a chunk leaves: the stack, the number of values deleted, and the tree.
abbrev pub Chunk : {V : Type 0} → Crates V → Type 0
Chunk m = Run (List ℕ × ℕ × Tree m)

-- What other tasks do to the tree while this one waits.
abbrev pub Turn : {V : Type 0} → Crates V → Type 0
Turn m = Tree m → Tree m

-- `YIELD_BUDGET`
abbrev pub yield_budget : ℕ
yield_budget = 256

module _ {V : Type 0} {m : Crates V} where
  -- `take` empties the temporary option and not the node: the value of the root stays. So does its
  -- overflow table.
  cut_root : Tree m → Run (Cut × Tree m)
  cut_root t = do
    root ← get_node t t.root_idx
    es ← children t root
    ok (
      record {
        free_stack = reverse (map (λ (e : ℕ × ℕ). e.1) es);
        parent_idx = t.root_idx;
        initial_count = if not (has_val root) then 0 else (if is_expired root t.now then 0 else 1);
      },
      put_node t t.root_idx (record root { childs = Childs.default }),
    )

  abbrev nothing_cut : Tree m → Run (Cut × Tree m)
  nothing_cut t = ok (record { free_stack = []; parent_idx = t.root_idx; initial_count = 0 }, t)

  cut_at : Tree m → Spot → Run (Cut × Tree m)
  cut_at t s = do
    t' ← remove_child t s.parent_idx s.parent_radix
    ok (record { free_stack = s.idx ∷ []; parent_idx = s.parent_idx; initial_count = 0 }, t')

  -- What `find_and_cut_prefix` does where the loop ends.
  finish_cut : Tree m → Stop → Run (Cut × Tree m)
  unfolding cut_at
  finish_cut t (arrived s) = cut_at t s
  finish_cut t (halted common_len s rest) =
      if common_len == length rest then cut_at t s else nothing_cut t
  finish_cut t (missing idx rest) = nothing_cut t
  finish_cut t dangling = nothing_cut t

  unfoldable pub find_and_cut_prefix : Tree m → List ℕ → Run (Cut × Tree m)
  unfolding cut_root finish_cut
  find_and_cut_prefix t [] = cut_root t
  find_and_cut_prefix t (r ∷ rest) = do s ← descend_key t (r ∷ rest); finish_cut t s

  abbrev pub chunk_freed :
      (Bool → List (ℕ × ℕ) → Tree m → Chunk m) → Bool → Run (List (ℕ × ℕ) × Tree m) → Chunk m
  chunk_freed next counted panic = panic
  chunk_freed next counted (ok (es, t)) = next counted es t

  abbrev pub chunk_visit :
      (Unit {0} → Chunk m)
      → (Bool → List (ℕ × ℕ) → Tree m → Chunk m)
      → Tree m
      → ℕ
      → Option (Node V)
      → Chunk m
  chunk_visit pass next t idx none = pass tt
  chunk_visit pass next t idx (some node) = chunk_freed next (has_val node) (free_node t idx node)

  -- The budget counts the nodes that are freed; one that is gone is passed over.
  unfoldable pub free_chunk : ℕ → List ℕ → ℕ → Tree m → Chunk m
  free_chunk zero stack count t = ok (stack, count, t)
  free_chunk (suc budget) [] count t = ok ([], count, t)
  free_chunk (suc budget) (idx ∷ stack) count t =
      chunk_visit (λ u. free_chunk (suc budget) stack count t)
        (λ counted es t'.
          free_chunk budget (pushed es stack) (if counted then count + 1 else count) t')
        t idx (try_get_node t idx)

  abbrev pub after_chunk :
      (List ℕ → ℕ → Tree m → Option (Run (ℕ × Tree m)))
      → ℕ
      → Turn m
      → Chunk m
      → Option (Run (ℕ × Tree m))
  after_chunk go total turn panic = some panic
  after_chunk go total turn (ok ([], n, t)) = some (ok (total + n, t))
  after_chunk go total turn (ok (idx ∷ stack, n, t)) = go (idx ∷ stack) (total + n) (turn t)

  -- The loop over the chunks, with one turn of the other tasks after each but the last. `none` means
  -- that the task has not come to its end after these turns.
  unfoldable pub free_in_chunks :
      ℕ → List (Turn m) → List ℕ → ℕ → Tree m → Option (Run (ℕ × Tree m))
  free_in_chunks budget turns [] total t = some (ok (total, t))
  free_in_chunks budget [] (idx ∷ stack) total t = none
  free_in_chunks budget (turn ∷ turns) (idx ∷ stack) total t =
      after_chunk (free_in_chunks budget turns) total turn (free_chunk budget (idx ∷ stack) 0 t)

  -- The node is recompressed after the last chunk.
  abbrev pub recompressed : ℕ → Option (Run (ℕ × Tree m)) → Option (Run (ℕ × Tree m))
  recompressed parent_idx none = none
  recompressed parent_idx (some run) = some (do
    (n, t) ← run
    if not (parent_idx == t.root_idx)
        then (do t ← try_recompress t parent_idx; ok (n, t))
        else ok (n, t))

  -- Without an index on the stack the task returns at once.
  abbrev pub chunked : List (Turn m) → Cut → Tree m → List ℕ → Option (Run (ℕ × Tree m))
  chunked turns c t [] = some (ok (c.initial_count, t))
  chunked turns c t (idx ∷ stack) =
      recompressed c.parent_idx (free_in_chunks yield_budget turns (idx ∷ stack) c.initial_count t)

  abbrev pub after_cut : List (Turn m) → Run (Cut × Tree m) → Option (Run (ℕ × Tree m))
  after_cut turns panic = some panic
  after_cut turns (ok (c, t)) = chunked turns c t c.free_stack

  unfoldable pub deln_async : List (Turn m) → Tree m → List ℕ → Option (Run (ℕ × Tree m))
  deln_async turns t prefix = after_cut turns (find_and_cut_prefix t prefix)
