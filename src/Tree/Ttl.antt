-- ===== src/Tree/Ttl.antt =====
-- What `get_ttl` tells of a key.
use radixox.Common.{
  ℕ, ◌-◌, ◌≡◌, ◌≢◌, refl, ltb, if◌then◌else◌, ◌⊎◌, inl, inr, List, none, some, Option-cases, ok,
  arith, Returns,
}
use radixox.Expiry
use radixox.Node.{Node, is_expired}
use radixox.Tree.{Crates, Tree, try_get_node}
use radixox.Tree.Clock.{TtlResult, key_not_exist, key_with_ttl, key_without_ttl, get_ttl}
use radixox.Tree.Descent.{Walks, stop, step, traverse_to_key-Walks}
use radixox.Tree.Shape.{IsValid}

-- The seconds that a node has left, if it has a time, and that has not passed.
abbrev pub ttl_of : {V : Type 0} → Node V → ℕ → TtlResult
ttl_of n now = elim (Expiry.exp n.exp_and_radix) [
  | none ↦ key_without_ttl
  | some e ↦ if ltb e now then key_not_exist else key_with_ttl (e - now)
]

told :
    {V : Type 0} (n : Node V) (now : ℕ)
    → (if is_expired n now then ok key_not_exist else (elim (Expiry.exp n.exp_and_radix) [
      | some e ↦ ok (key_with_ttl (e - now))
      | none ↦ ok key_without_ttl
    ]))
      ≡ ok (ttl_of n now)
unfolding is_expired Expiry.is_expired Expiry.exp
told n now = ground arith

module _ {V : Type 0} {m : Crates V} where
  -- A way leads to a node.
  Walks-there :
      {t : Tree m} {i j : ℕ} {key : List ℕ}
      → Walks t i key j
      → try_get_node t i ≢ none
      → try_get_node t j ≢ none
  Walks-there (stop i) there = there
  Walks-there (step i r c n key rest j link at spelt w) there =
      Walks-there w (λ off. ground (arith, at, off))

  module _ (vacant : List ℕ) (t : Tree m) (v : IsValid vacant t)
      (root : try_get_node t t.root_idx ≢ none) where
    -- In a well-formed tree that has its root, get_ttl does not panic. Either the key leads to
    -- a node, which need not have a value, and the answer is that the key does not exist if the
    -- node's time has passed, the seconds left if it has another time, and that there is no
    -- limit if it has none; or the key leads to no node, and the answer is that it does not
    -- exist.
    pub get_ttl-Walks :
        (key : List ℕ)
        → Returns (get_ttl t key) (λ r.
          ((j : ℕ) × (n : Node V) × Walks t t.root_idx key j
            × (try_get_node t j ≡ some n)
            × (r ≡ ttl_of n t.now))
          ⊎ (((j : ℕ) → ¬ (Walks t t.root_idx key j)) × (r ≡ key_not_exist)))
    unfolding get_ttl
    get_ttl-Walks key =
        let (o, run, leads) = traverse_to_key-Walks vacant t v key in
        elim (Option-cases o) [
          | inl off ↦ (
            key_not_exist,
            ground (arith, run, off),
            inr (λ j w. ground (arith, (leads j).1 w, off), refl),
          )
          | inr (i, e) ↦
              let w = (leads i).0 e in
              elim (Option-cases (try_get_node t i)) [
                | inl gone ↦ absurd (Walks-there w root gone)
                | inr (n, at) ↦
                    (ttl_of n t.now, rw (run, e, at) (told n t.now), inl (i, n, w, at, refl))
              ]
        ]
