-- ===== src/Tree/Chunks/Same.antt =====
-- If no other task changes the tree, the deletion in chunks is the deletion at once.
use radixox.Common.{
  ℕ, zero, suc, ◌+◌, ◌≤◌, ◌<◌, ◌≡◌, refl, sym, ap, ◌∙◌, Bool, true, false, if◌then◌else◌, List, [],
  ◌∷◌, Option, none, some, Run, ok, panic, arith, ◌⊎◌, inl, inr, replicate, length,
}
use radixox.Node.{Node, has_val}
use radixox.Tree.{Crates, Tree, try_get_node}
use radixox.Tree.Sweep.{free_node, freed, visit, free_loop, pushed}
use radixox.Tree.Sweep.Ends.{Covers, free_loop-Ends}
use radixox.Tree.Chunks.{Chunk, chunk_freed, chunk_visit, free_chunk, after_chunk, free_in_chunks}

count_from :
    (counted : Bool) (base count : ℕ)
    → (if counted then base + count + 1 else base + count)
      ≡ base + (if counted then count + 1 else count)
count_from true base count = omega arith
count_from false base count = refl

module _ {V : Type 0} {m : Crates V} where
  -- A chunk is the beginning of a run of the loop that has fuel for `n` nodes and has counted `base`
  -- values so far: either it comes to the same end, or the loop goes on from where it stops, with less
  -- fuel by the budget.
  abbrev Begins : ℕ → ℕ → ℕ → Run (ℕ × Tree m) → Chunk m → Type 0
  Begins n budget base run panic = run ≡ panic
  Begins n budget base run (ok (stack, count, t)) =
      ((stack ≡ []) × (run ≡ ok (base + count, t)))
      ⊎ ((n' : ℕ) × (n' + budget ≤ n) × (free_loop n' stack (base + count) t ≡ some run))

  freed-Begins :
      (n budget base : ℕ) (run : Run (ℕ × Tree m))
      (next : Bool → List (ℕ × ℕ) → Tree m → Option (Run (ℕ × Tree m)))
      (next' : Bool → List (ℕ × ℕ) → Tree m → Chunk m) (counted : Bool)
      (r : Run (List (ℕ × ℕ) × Tree m))
      → freed next counted r ≡ some run
      → ((es : List (ℕ × ℕ)) (t' : Tree m)
          → next counted es t' ≡ some run
          → Begins n budget base run (next' counted es t'))
      → Begins n budget base run (chunk_freed next' counted r)
  freed-Begins n budget base run next next' counted panic h more = cc
  freed-Begins n budget base run next next' counted (ok (es, t')) h more = more es t' h

  visit-Begins :
      (n budget base : ℕ) (run : Run (ℕ × Tree m)) (pass : Unit {0} → Option (Run (ℕ × Tree m)))
      (pass' : Unit {0} → Chunk m) (next : Bool → List (ℕ × ℕ) → Tree m → Option (Run (ℕ × Tree m)))
      (next' : Bool → List (ℕ × ℕ) → Tree m → Chunk m) (t : Tree m) (idx : ℕ) (o : Option (Node V))
      → visit pass next t idx o ≡ some run
      → (pass tt ≡ some run → Begins n budget base run (pass' tt))
      → ((counted : Bool) (es : List (ℕ × ℕ)) (t' : Tree m)
          → next counted es t' ≡ some run
          → Begins n budget base run (next' counted es t'))
      → Begins n budget base run (chunk_visit pass' next' t idx o)
  visit-Begins n budget base run pass pass' next next' t idx none h gone more = gone h
  visit-Begins n budget base run pass pass' next next' t idx (some node) h gone more =
      freed-Begins n budget base run next next' (has_val node) (free_node t idx node) h
        (more (has_val node))

  -- Freeing one node more takes one unit of the fuel and one of the budget.
  spends :
      (n budget base : ℕ) (run : Run (ℕ × Tree m)) (r : Chunk m)
      → Begins n budget base run r
      → Begins (suc n) (suc budget) base run r
  spends n budget base run panic h = h
  spends n budget base run (ok (stack, count, t)) (inl h) = inl h
  spends n budget base run (ok (stack, count, t)) (inr (n', small, h)) = inr (n', omega arith, h)

  free_chunk-Begins :
      (budget : ℕ) (stack : List ℕ) (n base count : ℕ) (t : Tree m) (run : Run (ℕ × Tree m))
      → free_loop n stack (base + count) t ≡ some run
      → Begins n budget base run (free_chunk budget stack count t)
  unfolding free_loop free_chunk
  free_chunk-Begins zero stack n base count t run h = inr (n, omega arith, h)
  free_chunk-Begins (suc budget) [] zero base count t run h = inl (refl, cc)
  free_chunk-Begins (suc budget) [] (suc n) base count t run h = inl (refl, cc)
  free_chunk-Begins (suc budget) (idx ∷ stack) zero base count t run h =
      visit-Begins zero (suc budget) base run (λ u. free_loop zero stack (base + count) t)
        (λ u. free_chunk (suc budget) stack count t) (λ counted es t'. none)
        (λ counted es t'.
          free_chunk budget (pushed es stack) (if counted then count + 1 else count) t')
        t idx (try_get_node t idx) h
        (λ go. free_chunk-Begins (suc budget) stack zero base count t run go)
        (λ counted es t' off. let wrong : none ≡ some run = off in absurd cc)
  free_chunk-Begins (suc budget) (idx ∷ stack) (suc n) base count t run h =
      visit-Begins (suc n) (suc budget) base run (λ u. free_loop (suc n) stack (base + count) t)
        (λ u. free_chunk (suc budget) stack count t)
        (λ counted es t'.
          free_loop n (pushed es stack) (if counted then base + count + 1 else base + count) t')
        (λ counted es t'.
          free_chunk budget (pushed es stack) (if counted then count + 1 else count) t')
        t idx (try_get_node t idx) h
        (λ go. free_chunk-Begins (suc budget) stack (suc n) base count t run go)
        (λ counted es t' go. spends n budget base run _ (
          free_chunk-Begins budget (pushed es stack) n base (if counted then count + 1 else count)
            t' run
            (sym (ap (λ c. free_loop n (pushed es stack) c t') (count_from counted base count))
              ∙ go)))

  free_loop-nil : (n count : ℕ) (t : Tree m) → free_loop n [] count t ≡ some (ok (count, t))
  unfolding free_loop
  free_loop-nil zero count t = refl
  free_loop-nil (suc n) count t = refl

  finished-Same :
      (n budget k total : ℕ) (run : Run (ℕ × Tree m)) (r : Chunk m)
      → n ≤ k
      → Begins n (suc budget) total run r
      → ((n' : ℕ) (stack : List ℕ) (base : ℕ) (t : Tree m)
          → n' < k
          → free_loop n' stack base t ≡ some run
          → free_in_chunks (suc budget) (replicate k (λ t. t)) stack base t ≡ some run)
      → after_chunk (free_in_chunks (suc budget) (replicate k (λ t. t))) total (λ t. t) r ≡ some run
  finished-Same n budget k total run panic small h on = cc
  finished-Same n budget k total run (ok ([], count, t)) small (inl (_, same)) on =
      ap some (sym same)
  finished-Same n budget k total run (ok ([], count, t)) small (inr (n', _, h)) on =
      sym (free_loop-nil n' (total + count) t) ∙ h
  finished-Same n budget k total run (ok (idx ∷ stack, count, t)) small (inl (off, _)) on =
      absurd cc
  finished-Same n budget k total run (ok (idx ∷ stack, count, t)) small (inr (n', less, h)) on =
      on n' (idx ∷ stack) (total + count) t (omega arith) h

  -- If the loop comes to an end with fuel for `n` nodes, then with more
  -- than `n` chunks, each for one node or more, the deletion in chunks comes to the same end.
  free_in_chunks_lem :
      (k n budget : ℕ) (stack : List ℕ) (total : ℕ) (t : Tree m) (run : Run (ℕ × Tree m))
      → n < k
      → free_loop n stack total t ≡ some run
      → free_in_chunks (suc budget) (replicate k (λ t. t)) stack total t ≡ some run
  unfolding free_in_chunks
  free_in_chunks_lem zero n budget stack total t run small h = absurd (omega arith)
  free_in_chunks_lem (suc k) n budget [] total t run small h = sym (free_loop-nil n total t) ∙ h
  free_in_chunks_lem (suc k) n budget (idx ∷ stack) total t run small h =
      finished-Same n budget k total run (free_chunk (suc budget) (idx ∷ stack) 0 t) (omega arith)
        (free_chunk-Begins (suc budget) (idx ∷ stack) n total 0 t run
          (ap (λ c. free_loop n (idx ∷ stack) c t) (omega arith) ∙ h))
        (λ n' stack' base t' less on. free_in_chunks_lem k n' budget stack' base t' run less on)

  -- If no other task changes the tree, the deletion in chunks of one node or more ends as the loop without
  -- chunks does, with a count or a panic, after no more chunks than there are nodes, and one, whatever
  -- the links of the tree are.
  pub free_in_chunks-free_loop :
      (budget k : ℕ) (stack : List ℕ) (total : ℕ) (t : Tree m) (live : List ℕ)
      → Covers live t
      → length live < k
      → (run : Run (ℕ × Tree m)) × (free_loop (length live) stack total t ≡ some run)
        × (free_in_chunks (suc budget) (replicate k (λ t. t)) stack total t ≡ some run)
  free_in_chunks-free_loop budget k stack total t live c h =
      let (run, ends) = free_loop-Ends (length live) stack total t live c (omega arith) in
      (run, ends, free_in_chunks_lem k (length live) budget stack total t run h ends)
