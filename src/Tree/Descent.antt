-- ===== src/Tree/Descent.antt =====
-- Which node a key leads to: `traverse_to_key` follows the links that spell the key.
use radixox.Common.{
  ℕ, zero, suc, ◌≤◌, ◌≡◌, ◌≢◌, refl, sym, ap, ◌∙◌, subst, List, [], ◌∷◌, ◌++◌, Option, none, some,
  Option-cases, arith, ◌⊎◌, inl, inr, length, length-append, append-nil, drop, Returns,
}
use native.Mathlib.Nat.{le_refl}
use radixox.Node.{Node, CompResult, path, final, partial, compare_compression_key}
use radixox.Node.Compare.{Compares, same, goes_on, ends, parts, compare-Compares}
use radixox.Tree.{
  Crates, Tree, missing, arrived, halted, dangling, reached, try_get_node, descend, traverse_to_key,
}
use radixox.Tree.Shape.{child_of, IsValid, find-child_of}

-- From the node `i` the key spells a way to the node `j`: each link takes up its radix and then the
-- compressed part of the node that it leads to.
pub data Walks {V : Type 0} {m : Crates V} (t : Tree m) : ℕ → List ℕ → ℕ → Type 0 where
  stop : (i : ℕ) → Walks t i [] i
  step :
      (i r c : ℕ) (n : Node V) (key rest : List ℕ) (j : ℕ)
      → child_of t i r ≡ some c
      → try_get_node t c ≡ some n
      → key ≡ n.compression ++ rest
      → Walks t c rest j
      → Walks t i (r ∷ key) j

drop-append : (xs ys : List ℕ) → drop (length xs) (xs ++ ys) ≡ ys
drop-append [] ys = refl
drop-append (x ∷ xs) ys = drop-append xs ys

-- What each outcome of the comparison says about the ways on.
abbrev Meaning : List ℕ → List ℕ → CompResult → Type 0
Meaning c k final = (c ++ [] ≡ k) × (drop (length c) k ≡ [])
Meaning c k path =
    (r : ℕ) × (rest : List ℕ) × (drop (length c) k ≡ r ∷ rest)
    × (c ++ r ∷ rest ≡ k)
    × (length (r ∷ rest) ≤ length k)
Meaning c k (partial n) = (x : List ℕ) → k ≢ c ++ x

parted : (p c k z : List ℕ) (x y : ℕ) → x ≢ y → p ++ y ∷ k ≢ (p ++ x ∷ c) ++ z
parted [] c k z x y ne e = ne cc
parted (w ∷ p) c k z x y ne e = parted p c k z x y ne cc

meaning : {c k : List ℕ} {o : CompResult} → Compares c k o → Meaning c k o
meaning (same c) = (append-nil c, ap (drop (length c)) (sym (append-nil c)) ∙ drop-append c [])
meaning (goes_on c rest r) =
    (r, rest, drop-append c (r ∷ rest), refl, omega (arith, length-append c (r ∷ rest)))
meaning (ends k rest r) =
    λ x e. omega (arith, ap length e, length-append (k ++ r ∷ rest) x, length-append k (r ∷ rest))
meaning (parts p c k x y ne) = λ z. parted p c k z x y ne

CompResult-cases : (o : CompResult) → (o ≡ path) ⊎ ((o ≡ final) ⊎ ((n : ℕ) × (o ≡ partial n)))
CompResult-cases path = inl refl
CompResult-cases final = inr (inl refl)
CompResult-cases (partial n) = inr (inr (n, refl))

module _ {V : Type 0} {m : Crates V} (vacant : List ℕ) (t : Tree m) (v : IsValid vacant t) where
  -- The outcome is the node that the key leads to, if there is one.
  abbrev Leads : ℕ → List ℕ → Option ℕ → Type 0
  Leads i key o = (j : ℕ) → (o ≡ some j → Walks t i key j) × (Walks t i key j → o ≡ some j)

  nowhere : (i r : ℕ) (key : List ℕ) → child_of t i r ≡ none → Leads i (r ∷ key) none
  nowhere i r key h j = (λ e. cc, go)
    where
      go : Walks t i (r ∷ key) j → none ≡ some j
      go (step i r c n key rest j e _ _ _) = cc

  broken :
      (i r c : ℕ) (key : List ℕ)
      → child_of t i r ≡ some c
      → try_get_node t c ≡ none
      → Leads i (r ∷ key) none
  broken i r c key link off j = (λ e. cc, go)
    where
      go : Walks t i (r ∷ key) j → none ≡ some j
      go (step _ _ c' n _ rest _ link' at' _ _) = let same : c' ≡ c = cc in cc

  module _ (i r c : ℕ) (n : Node V) (key : List ℕ) (link : child_of t i r ≡ some c)
      (at : try_get_node t c ≡ some n) where
    -- A way on goes through the linked node.
    through :
        (j : ℕ)
        → Walks t i (r ∷ key) j
        → (rest : List ℕ) × (key ≡ n.compression ++ rest) × Walks t c rest j
    through j (step _ _ c' n' _ rest _ link' at' spelt w) =
        let same : c' ≡ c = cc in
        let node : n' ≡ n = cc in
        (rest, spelt ∙ ap (λ z. z.compression ++ rest) node, subst (λ z. Walks t z rest j) same w)

    halts : (k : ℕ) → Meaning n.compression key (partial k) → Leads i (r ∷ key) none
    halts k off j = (λ e. cc, λ w. let (rest, spelt, _) = through j w in absurd (off rest spelt))

    arrives : Meaning n.compression key final → Leads i (r ∷ key) (some c)
    arrives (spelt, used) j = (
      λ e.
          let here : c ≡ j = cc in
          step i r c n key [] j link at (sym spelt) (subst (λ z. Walks t c [] z) here (stop c)),
      λ w.
          let (rest, spelt', on) = through j w in
          let none_left : rest ≡ [] =
            sym (drop-append n.compression rest)
            ∙ ap (drop (length n.compression)) (sym spelt')
            ∙ used in
          ends_here (subst (λ z. Walks t c z j) none_left on),
    )
      where
        ends_here : {k : ℕ} → Walks t c [] k → some c ≡ some k
        ends_here (stop k) = refl

    -- What holds of the rest of the key from the linked node on, holds of the key.
    goes :
        (o : Option ℕ)
        → Meaning n.compression key path
        → Leads c (drop (length n.compression) key) o
        → Leads i (r ∷ key) o
    goes o (x, xs, left, spelt, _) on j = (
      λ e.
          step i r c n key (x ∷ xs) j link at (sym spelt)
            (subst (λ z. Walks t c z j) left ((on j).0 e)),
      λ w.
          let (rest, spelt', w') = through j w in
          let same =
            sym (drop-append n.compression rest) ∙ ap (drop (length n.compression)) (sym spelt') in
          (on j).1 (subst (λ z. Walks t c z j) same w'),
    )

  -- The fuel that the code's loop is given is enough.
  pub descend-Leads :
      (fuel i r : ℕ) (key : List ℕ)
      → length (r ∷ key) ≤ fuel
      → Returns (descend fuel t i (r ∷ key)) (λ s. Leads i (r ∷ key) (reached s))
  unfolding descend
  descend-Leads zero i r key h = absurd (omega arith)
  descend-Leads (suc fuel) i r key h = elim (Option-cases (child_of t i r)) [
    | inl off ↦
        (missing i (r ∷ key), rw (find-child_of vacant t i r v, off) refl, nowhere i r key off)
    | inr (c, link) ↦ elim (Option-cases (try_get_node t c)) [
      | inl off ↦ (
        dangling,
        ground (arith, find-child_of vacant t i r v, link, off),
        broken i r c key link off,
      )
      | inr (n, at) ↦
          let known = meaning (compare-Compares n.compression key) in
          let found = find-child_of vacant t i r v in
          elim (CompResult-cases (compare_compression_key n.compression key)) [
            | inl e ↦
                let told : Meaning n.compression key path =
                  subst (Meaning n.compression key) e known in
                let (x, xs, left, _, size) = told in
                let (s, run, leads) = descend-Leads fuel c x xs (omega arith) in
                (
                  s,
                  ground (arith, found, link, at, e, left, run),
                  goes i r c n key link at (reached s) told
                      (subst (λ z. Leads c z (reached s)) (sym left) leads),
                )
            | inr (inl e) ↦ (
              arrived (record { idx = c; parent_idx = i; parent_radix = r }),
              ground (arith, found, link, at, e),
              arrives i r c n key link at (subst (Meaning n.compression key) e known),
            )
            | inr (inr (k, e)) ↦ (
              halted k (record { idx = c; parent_idx = i; parent_radix = r }) key,
              ground (arith, found, link, at, e),
              halts i r c n key link at k (subst (Meaning n.compression key) e known),
            )
          ]
    ]
  ]

  -- In a well-formed tree `traverse_to_key` does not panic, and returns the index of a node exactly
  -- when the links and compressed parts on a way from the root to that node spell the key.
  pub traverse_to_key-Walks :
      (key : List ℕ)
      → Returns (traverse_to_key t key) (λ o.
        (j : ℕ) → (o ≡ some j → Walks t t.root_idx key j) × (Walks t t.root_idx key j → o ≡ some j))
  unfolding traverse_to_key
  traverse_to_key-Walks [] = (
    some t.root_idx,
    refl,
    λ j. (
      λ e.
          let here : t.root_idx ≡ j = cc in
          subst (λ z. Walks t t.root_idx [] z) here (stop t.root_idx),
      stays,
    ),
  )
    where
      stays : {i k : ℕ} → Walks t i [] k → some i ≡ some k
      stays (stop i) = refl
  traverse_to_key-Walks (r ∷ key) =
      let (s, run, leads) = descend-Leads (length (r ∷ key)) t.root_idx r key (le_refl _) in
      (reached s, rw run refl, leads)
