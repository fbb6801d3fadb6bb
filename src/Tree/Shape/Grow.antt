-- ===== src/Tree/Shape/Grow.antt =====
-- A node that gets one more child, in a free cell or in a new table: a change of that one link.
use radixox.Common.{
  ℕ, ◌≡◌, refl, subst, ◌==◌, if◌then◌else◌, inl, inr, List, none, some, same_or, arith,
}
use radixox.Arena.Laws.{held}
use radixox.Arena.First.{First}
use radixox.Arena
use radixox.Childs.{is_full}
use radixox.Childs
use radixox.Childs.Laws
use radixox.Node.{Node, get_overflow_idx}
use radixox.Tree.{Crates, Tree, try_get_node, put_node}
use radixox.Tree.Shape.Change.{Changes}
use radixox.Tree.Shape.{table_of, child_of, IsValid}

module _ {V : Type 0} {m : Crates V} (vacant : List ℕ) (t : Tree m) (v : IsValid vacant t) (p : ℕ)
    (n : Node V) (at : try_get_node t p ≡ some n) (r i : ℕ) where
  module _ (absent : child_of t p r ≡ none) where
    pub not_in_node : Childs.find n.childs r ≡ none
    not_in_node = ground (arith, absent, at)

    pub not_in_table : table_of t (get_overflow_idx n) r ≡ none
    not_in_table = ground (arith, absent, at, not_in_node)

    -- The node has a free cell.
    pub in_node-Grows :
        (c : Childs.Childs)
        → Childs.Laws.IsValid c
        → ((q : ℕ) → Childs.find c q ≡ (if r == q then some i else Childs.find n.childs q))
        → Changes vacant t v p n at r
            (some i)
            vacant
            (record n { childs = c })
            (put_node t p (record n { childs = c }))
    unfolding get_overflow_idx
    in_node-Grows c valid reads = record {
      nodes = λ j. m.nodes.get-set t.map p (record n { childs = c }) n j at;
      store = v.store;
      childs = valid;
      kept = λ k _ there. there;
      mine = λ k idx. v.table p k n at idx;
      own = λ k idx. inl idx;
      apart = λ q. elim (same_or r q) [
        | inl same ↦ inr (subst (λ z. table_of t (get_overflow_idx n) z ≡ none) same not_in_table)
        | inr ne ↦ ground (arith, ne, reads q, v.apart p q n at)
      ];
      here = λ q. ground (arith, reads q, at);
      elsewhere = λ k q _ _. refl;
      same_body = refl;
      tags = λ j. m.nodes.tagged-set t.map p (record n { childs = c }) j;
      root = refl;
      clock = refl;
    }

    -- The node gets a table.
    pub in_new_table-Grows :
        (slot : ℕ) (b : Arena.Arena) (s : m.huge.Slab)
        → get_overflow_idx n ≡ none
        → (f : First m.huge t.overflow_arena t.huge_ovf r i slot b s)
        → Changes vacant t v p n at r
            (some i)
            f.rest
            (record n { overflow_idx = slot })
            (put_node
              (record t { huge_ovf = s; overflow_arena = b })
              p
              (record n { overflow_idx = slot }))
    unfolding get_overflow_idx
    in_new_table-Grows slot b s idx f = record {
      nodes = λ j. m.nodes.get-set t.map p (record n { overflow_idx = slot }) n j at;
      store = f.valid;
      childs = v.childs p n at;
      kept = λ k _. f.kept k;
      mine = λ k e. ground (arith, e, f.ne_no_index, f.filled);
      own = λ k e. inr (ground (arith, e, f.ne_no_index, f.was_vacant));
      apart = λ q. elim (same_or r q) [
        | inl same ↦ inl (subst (λ z. Childs.find n.childs z ≡ none) same not_in_node)
        | inr ne ↦ inr (ground (arith, ne, f.ne_no_index, f.was_vacant, f.reads slot q))
      ];
      here = λ q. elim (same_or r q) [
        | inl same ↦ ground (arith, same, f.ne_no_index, f.reads slot q, not_in_node, at)
        | inr ne ↦ ground (arith, ne, f.ne_no_index, f.was_vacant, f.reads slot q, idx, at)
      ];
      elsewhere = λ k q _ old. elim (same_or slot k) [
        | inl same ↦ absurd (old (subst (λ z. held t.overflow_arena z ≡ none) same f.was_vacant))
        | inr ne ↦ ground (arith, ne, f.reads k q)
      ];
      same_body = refl;
      tags = λ j. m.nodes.tagged-set t.map p (record n { overflow_idx = slot }) j;
      root = refl;
      clock = refl;
    }
