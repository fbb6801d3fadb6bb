-- ===== src/Tests/TwoNodes.antt =====
-- A well-formed tree of two nodes, whose key "ab" holds a value.
use radixox.Common.{
  ℕ, zero, suc, ◌+◌, ◌*◌, ◌≡◌, refl, subst, false, [], ◌∷◌, Option, none, some, inl, inr, ◌⊎◌,
  arith, replicate, no_index,
}
use radixox.Childs
use radixox.Arena
use radixox.Slab.Bounded.{tagged_slots}
use radixox.Node.{Node, get_overflow_idx}
use radixox.Tree.{Crates, Tree, try_get_node}
use radixox.Tree.Descent.{Walks, stop, step}
use radixox.Tree.Shape.{table_of, IsValid}
use radixox.Tests.Concrete.{huge}

abbrev pub crates : (V : Type 0) → Crates V
crates V = record { huge = huge; nodes = tagged_slots (Node V) }

module _ {V : Type 0} (v : V) where
  -- The root, whose child under 97 is the node 1.
  abbrev pub root : Node V
  root = record {
    compression = [];
    childs = record { idxs = 1 ∷ replicate 5 no_index; radixs = 97 ∷ replicate 5 0; len = 1 };
    val = none;
    exp_and_radix = 72057594037927935;
    overflow_idx = no_index;
    parent_idx = no_index;
  }

  -- The node of the key "ab".
  abbrev pub leaf : Node V
  leaf = record {
    compression = 98 ∷ [];
    childs = record { idxs = replicate 6 no_index; radixs = replicate 6 0; len = 0 };
    val = some v;
    exp_and_radix = 98 * 72057594037927936 + 72057594037927935;
    overflow_idx = no_index;
    parent_idx = 0;
  }

  abbrev cells : ℕ → Option (Node V)
  cells zero = some root
  cells (suc zero) = some leaf
  cells (suc (suc i)) = none

  abbrev pub tree : Tree (crates V)
  tree = record {
    map = record { used = 2; cell = cells; mark = λ i. false };
    overflow_arena = Arena.new;
    huge_ovf = (crates V).huge.slab.empty;
    now = 0;
    root_idx = 0;
  }

  only_two :
      (i : ℕ) (n : Node V)
      → try_get_node tree i ≡ some n
      → ((i ≡ 0) × (root ≡ n)) ⊎ ((i ≡ 1) × (leaf ≡ n))
  only_two zero n e = inl (refl, cc)
  only_two (suc zero) n e = inr (refl, cc)
  only_two (suc (suc i)) n e = ground (arith, e)

  no_table :
      (i oi : ℕ) (n : Node V) → try_get_node tree i ≡ some n → get_overflow_idx n ≡ some oi → ⊥
  unfolding get_overflow_idx
  no_table i oi n e idx = elim (only_two i n e) [
    | inl (_, same) ↦ ground (arith, same, idx)
    | inr (_, same) ↦ ground (arith, same, idx)
  ]

  root_table : (q : ℕ) → table_of tree (get_overflow_idx root) q ≡ none
  unfolding get_overflow_idx
  root_table q = refl

  leaf_table : (q : ℕ) → table_of tree (get_overflow_idx leaf) q ≡ none
  unfolding get_overflow_idx
  leaf_table q = refl

  pub tree-IsValid : IsValid [] tree
  unfolding Childs.iter Childs.find
  tree-IsValid = record {
    store = record {
      arena = Arena.Laws.new-IsValid;
      tables = λ i o e. cc;
      huge_owner = λ i j h o p e _ _ _. cc;
    };
    childs = λ i n e. elim (only_two i n e) [
      | inl (_, same) ↦
          subst (λ z. Childs.Laws.IsValid z.childs) same
            (record {
              idxs_size = refl;
              radixs_size = refl;
              within = omega arith;
              distinct = (refl, tt);
            })
      | inr (_, same) ↦
          subst (λ z. Childs.Laws.IsValid z.childs) same
            (record { idxs_size = refl; radixs_size = refl; within = omega arith; distinct = tt })
    ];
    table = λ i oi n e idx. absurd (no_table i oi n e idx);
    apart = λ i q n e. inr (elim (only_two i n e) [
      | inl (_, same) ↦ subst (λ z. table_of tree (get_overflow_idx z) q ≡ none) same (root_table q)
      | inr (_, same) ↦ subst (λ z. table_of tree (get_overflow_idx z) q ≡ none) same (leaf_table q)
    ]);
    owner = λ i j oi n p e _ idx _. absurd (no_table i oi n e idx);
  }

  pub walk_to_ab : Walks tree 0 (97 ∷ 98 ∷ []) 1
  unfolding Childs.find
  walk_to_ab = step 0 97 1 leaf (98 ∷ []) [] 1 refl refl refl (stop 1)
