-- ===== src/Tree/Shape/Start.antt =====
-- The tree that `OxidArt::new` returns.
use radixox.Common.{
  ℕ, ◌≡◌, ◌<◌, refl, sym, ◌∙◌, [], none, some, arith, Returns, inl, inr, same_or, subst, ◌==◌,
  if◌then◌else◌,
}
use radixox.Childs
use radixox.Childs.Laws.{default-IsValid}
use radixox.Arena
use radixox.Arena.Laws.{new-IsValid}
use radixox.Node.{Node, get_overflow_idx, default}
use radixox.Tree.{Crates, Tree, try_get_node, new}
use radixox.Tree.Shape.{child_of, body, body_at, IsValid}

module _ {V : Type 0} {m : Crates V} where
  -- One node, the root, which has no child.
  pub record IsEmpty (t : Tree m) : Type 0 where
    pub valid : IsValid [] t
    pub no_child : (i q : ℕ) → child_of t i q ≡ none
    pub root : body_at t t.root_idx ≡ some (body default)

module _ {V : Type 0} (m : Crates V) where
  start : Tree m
  start = record {
    map = m.nodes.add m.nodes.empty default;
    overflow_arena = Arena.new;
    huge_ovf = m.huge.slab.empty;
    now = 0;
    root_idx = m.nodes.next m.nodes.empty;
  }

  module _ (room : 0 < m.nodes.room m.nodes.empty) where
    at_start :
        (i : ℕ)
        → m.nodes.get (m.nodes.add m.nodes.empty default) i
          ≡ (if m.nodes.next m.nodes.empty == i then some default else none)
    at_start i = m.nodes.get-add m.nodes.empty default i room ∙ rw (m.nodes.get-empty i) refl

    only_root :
        (i : ℕ) (n : Node V) → try_get_node start i ≡ some n → (start.root_idx ≡ i) × (default ≡ n)
    unfolding start
    only_root i n e = elim (same_or start.root_idx i) [
      | inl same ↦ (same, ground (arith, same, at_start i))
      | inr ne ↦ absurd (ground (arith, ne, e, at_start i))
    ]

    start-IsEmpty : IsEmpty start
    unfolding start get_overflow_idx Childs.find default
    start-IsEmpty = record {
      valid = record {
        store = record {
          arena = new-IsValid;
          tables = λ i o e. cc;
          huge_owner = λ i j h o p e _ _ _. cc;
        };
        childs =
            λ i n e. subst (λ z. Childs.Laws.IsValid z.childs) (only_root i n e).1 default-IsValid;
        table = λ i oi n e idx. absurd (ground (arith, (only_root i n e).1, idx));
        apart = λ i q n e. inl (ground (arith, (only_root i n e).1));
        owner = λ i j oi n p e e' _ _. sym (only_root i n e).0 ∙ (only_root j p e').0;
      };
      no_child = λ i q. elim (same_or start.root_idx i) [
        | inl same ↦ ground (arith, same, at_start i)
        | inr ne ↦ ground (arith, ne, at_start i)
      ];
      root = ground (arith, at_start start.root_idx);
    }

    -- A new tree is well-formed, and consists of a root without value, child or compression.
    pub new-IsEmpty : Returns (new {m = m}) IsEmpty
    unfolding new start
    new-IsEmpty = (start, rw (m.nodes.insert-room m.nodes.empty default room) refl, start-IsEmpty)
