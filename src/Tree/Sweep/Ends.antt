-- ===== src/Tree/Sweep/Ends.antt =====
-- The loop that frees a subtree ends on every tree, whatever its links.
use radixox.Common.{
  ℕ, zero, suc, ◌+◌, ◌≤◌, ◌≡◌, refl, sym, subst, ap, ◌∙◌, ◌==◌, Bool, true, false, if◌then◌else◌,
  Bool-cases, Option-cases, inl, inr, List, [], ◌∷◌, map, Option, none, some, Run, ok, panic,
  length, arith,
}
use mathlib.Core.List.{reverse}
use radixox.Childs
use radixox.Node.{Node, has_val, take_val}
use radixox.Tree.{Crates, Tree, try_get_node}
use radixox.Tree.Link.{children}
use radixox.Tree.Sweep.{
  free_node, freed, visit, free_loop, pushed, clear_root, swept, sweep_root, deln_all,
}

abbrev pub is_in : ℕ → List ℕ → Bool
is_in i [] = false
is_in i (x ∷ xs) = if i == x then true else is_in i xs

-- The list without its first `i`.
abbrev pub without : ℕ → List ℕ → List ℕ
without i [] = []
without i (x ∷ xs) = if i == x then xs else x ∷ without i xs

is_in-without :
    (i j : ℕ) (xs : List ℕ) → (i == j) ≡ false → is_in j xs ≡ true → is_in j (without i xs) ≡ true
is_in-without i j [] apart h = h
is_in-without i j (x ∷ xs) apart h = ground (arith, is_in-without i j xs)

length-without : (i : ℕ) (xs : List ℕ) → is_in i xs ≡ true → suc (length (without i xs)) ≡ length xs
length-without i [] h = absurd (ground (arith, h))
length-without i (x ∷ xs) h = ground (arith, length-without i xs)

module _ {V : Type 0} {m : Crates V} where
  -- Every node is at one of the indices.
  abbrev pub Covers : List ℕ → Tree m → Type 0
  Covers live t = (i : ℕ) (n : Node V) → try_get_node t i ≡ some n → is_in i live ≡ true

  -- Freeing a node leaves the others.
  free_node-map :
      (t : Tree m) (idx : ℕ) (node : Node V) (es : List (ℕ × ℕ)) (t' : Tree m)
      → free_node t idx node ≡ ok (es, t')
      → t'.map ≡ m.nodes.remove t.map idx
  unfolding children
  free_node-map t idx node es t' h = ground (arith, h)

  freed-Covers :
      (live : List ℕ) (t t' : Tree m) (idx : ℕ)
      → Covers live t
      → t'.map ≡ m.nodes.remove t.map idx
      → Covers (without idx live) t'
  freed-Covers live t t' idx c e i n h =
      let there : (if idx == i then none else try_get_node t i) ≡ some n =
        sym (ap (λ s. m.nodes.get s i) e ∙ m.nodes.get-remove t.map idx i) ∙ h in
      elim (Bool-cases (idx == i)) [
        | inl hit ↦ absurd (ground (arith, there, hit))
        | inr apart ↦
            let old : try_get_node t i ≡ some n = ground (arith, there, apart) in
            is_in-without idx i live apart (c i n old)
      ]

  abbrev Ends : Option (Run (ℕ × Tree m)) → Type 0
  Ends o = (run : Run (ℕ × Tree m)) × (o ≡ some run)

  -- A round ends if what may follow it does.
  visit-Ends :
      (pass : Unit {0} → Option (Run (ℕ × Tree m)))
      (next : Bool → List (ℕ × ℕ) → Tree m → Option (Run (ℕ × Tree m))) (t : Tree m) (idx : ℕ)
      → (try_get_node t idx ≡ none → Ends (pass tt))
      → ((node : Node V) (es : List (ℕ × ℕ)) (t' : Tree m)
          → try_get_node t idx ≡ some node
          → free_node t idx node ≡ ok (es, t')
          → Ends (next (has_val node) es t'))
      → Ends (visit pass next t idx (try_get_node t idx))
  visit-Ends pass next t idx gone more = elim (Option-cases (try_get_node t idx)) [
    | inl off ↦ subst Ends (sym (ap (visit pass next t idx) off)) (gone off)
    | inr (node, on) ↦
        subst Ends (sym (ap (visit pass next t idx) on)) (go node on (free_node t idx node) refl)
  ]
    where
      go :
          (node : Node V)
          → try_get_node t idx ≡ some node
          → (r : Run (List (ℕ × ℕ) × Tree m)) → free_node t idx node ≡ r
          → Ends (freed next (has_val node) r)
      go node on panic e = (panic, refl)
      go node on (ok (es, t')) e = more node es t' on e

  -- With as much fuel as there are nodes the loop ends, with a count or a panic, whatever the links
  -- and the stack are.
  pub free_loop-Ends :
      (fuel : ℕ) (stack : List ℕ) (count : ℕ) (t : Tree m) (live : List ℕ)
      → Covers live t
      → length live ≤ fuel
      → (run : Run (ℕ × Tree m)) × (free_loop fuel stack count t ≡ some run)
  unfolding free_loop
  free_loop-Ends zero [] count t live c h = (ok (count, t), refl)
  free_loop-Ends (suc fuel) [] count t live c h = (ok (count, t), refl)
  free_loop-Ends zero (idx ∷ stack) count t live c h =
      visit-Ends (λ u. free_loop zero stack count t) (λ counted es t'. none) t idx
        (λ off. free_loop-Ends zero stack count t live c h)
        (λ node es t' on e. absurd (omega (arith, h, length-without idx live (c idx node on))))
  free_loop-Ends (suc fuel) (idx ∷ stack) count t live c h =
      visit-Ends (λ u. free_loop (suc fuel) stack count t)
        (λ counted es t'.
          free_loop fuel (pushed es stack) (if counted then count + 1 else count) t')
        t idx (λ off. free_loop-Ends (suc fuel) stack count t live c h)
        (λ node es t' on e.
          free_loop-Ends fuel (pushed es stack) (if has_val node then count + 1 else count) t'
            (without idx live) (freed-Covers live t t' idx c (free_node-map t idx node es t' e))
            (omega (arith, h, length-without idx live (c idx node on))))

  cleared-Covers :
      (live : List ℕ) (t : Tree m) (root : Node V)
      → Covers live t
      → try_get_node t t.root_idx ≡ some root
      → Covers live (clear_root t root)
  unfolding clear_root
  cleared-Covers live t root c there i n h =
      let reads =
        m.nodes.get-set t.map t.root_idx (record (take_val root).1 { childs = Childs.default }) root
          i there in
      elim (Bool-cases (t.root_idx == i)) [
        | inl hit ↦ ground (arith, hit, c t.root_idx root there)
        | inr apart ↦ c i n (sym (reads ∙ rw apart refl) ∙ h)
      ]

  swept-Ends :
      (fuel : ℕ) (t : Tree m) (root : Node V) (live : List ℕ) (es : Run (List (ℕ × ℕ)))
      → Covers live (clear_root t root)
      → length live ≤ fuel
      → Ends (swept fuel t root es)
  swept-Ends fuel t root live panic c h = (panic, refl)
  swept-Ends fuel t root live (ok es) c h =
      free_loop-Ends fuel (reverse (map (λ (e : ℕ × ℕ). e.1) es)) (if has_val root then 1 else 0)
        (clear_root t root) live c h

  -- So does the deletion of all keys.
  pub deln_all-Ends :
      (fuel : ℕ) (t : Tree m) (live : List ℕ)
      → Covers live t
      → length live ≤ fuel
      → (run : Run (ℕ × Tree m)) × (deln_all fuel t ≡ some run)
  unfolding deln_all
  deln_all-Ends fuel t live c h = elim (Option-cases (try_get_node t t.root_idx)) [
    | inl off ↦ (panic, ap (sweep_root fuel t) off)
    | inr (root, on) ↦
        subst Ends (sym (ap (sweep_root fuel t) on))
          (swept-Ends fuel t root live (children t root) (cleared-Covers live t root c on) h)
  ]
