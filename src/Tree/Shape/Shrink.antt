-- ===== src/Tree/Shape/Shrink.antt =====
-- A node that loses one child, from its own table or from its overflow table, which is given back
-- when it has become empty: a change of that one link.
use radixox.Common.{
  ℕ, ◌≡◌, refl, sym, subst, ap, ◌∙◌, true, inl, inr, List, ◌∷◌, Option, none, some, same_or, arith,
  no_index,
}
use radixox.Overflow.{Overflow}
use radixox.Overflow
use radixox.Arena.{Arena}
use radixox.Arena.Laws.{held}
use radixox.Arena.Release.{Released, find-empty}
use radixox.Arena.Store.{StoreIsValid}
use radixox.Childs
use radixox.Childs.Laws.{Removes}
use radixox.Node.{Node, get_overflow_idx}
use radixox.Tree.{Crates, Tree, try_get_node, put_node}
use radixox.Tree.Shape.{table_of, child_of, IsValid}
use radixox.Tree.Shape.Change.{Changes}

module _ {V : Type 0} {m : Crates V} (vacant : List ℕ) (t : Tree m) (v : IsValid vacant t) (p : ℕ)
    (n : Node V) (at : try_get_node t p ≡ some n) (r : ℕ) where
  -- The child stood in the node.
  pub in_node-Shrinks :
      (o : Option ℕ) (c : Childs.Childs) (k : ℕ)
      → Removes n.childs r (o, c)
      → o ≡ some k
      → Changes vacant t v p n at r none vacant
          (record n { childs = c })
          (put_node t p (record n { childs = c }))
  unfolding get_overflow_idx
  in_node-Shrinks o c k f found = record {
    nodes = λ j. m.nodes.get-set t.map p (record n { childs = c }) n j at;
    store = v.store;
    childs = f.valid;
    kept = λ j _ there. there;
    mine = λ j idx. v.table p j n at idx;
    own = λ j idx. inl idx;
    apart = λ q. elim (same_or r q) [
      | inl same ↦ inl (ground (arith, same, f.reads q))
      | inr ne ↦ ground (arith, ne, f.reads q, v.apart p q n at)
    ];
    here = λ q. elim (same_or r q) [
      | inl same ↦ ground (arith, same, f.reads q, v.apart p q n at, f.returns, found)
      | inr ne ↦ ground (arith, ne, f.reads q, at)
    ];
    elsewhere = λ j q _ _. refl;
    same_body = refl;
    tags = λ j. m.nodes.tagged-set t.map p (record n { childs = c }) j;
    root = refl;
    clock = refl;
  }

  -- The node has no such child.
  pub no_child-Shrinks : child_of t p r ≡ none → Changes vacant t v p n at r none vacant n t
  no_child-Shrinks absent = record {
    nodes = λ j. elim (same_or p j) [
      | inl same ↦ ground (arith, same, at)
      | inr ne ↦ ground (arith, ne)
    ];
    store = v.store;
    childs = v.childs p n at;
    kept = λ j _ there. there;
    mine = λ j idx. v.table p j n at idx;
    own = λ j idx. inl idx;
    apart = λ q. v.apart p q n at;
    here = λ q. elim (same_or r q) [
      | inl same ↦ ground (arith, same, absent, at)
      | inr ne ↦ ground (arith, ne, at)
    ];
    elsewhere = λ j q _ _. refl;
    same_body = refl;
    tags = λ j. refl;
    root = refl;
    clock = refl;
  }

  -- The table of the node is empty, and is given back.
  pub empty_table-Shrinks :
      (oi : ℕ) (y : Overflow) (s : m.huge.Slab) (b : Arena)
      → get_overflow_idx n ≡ some oi
      → held t.overflow_arena oi ≡ some y
      → Overflow.is_empty y ≡ true
      → Released m.huge vacant t.overflow_arena t.huge_ovf oi (s, b)
      → Childs.find n.childs r ≡ none
      → Changes vacant t v p n at r none
          (oi ∷ vacant)
          (record n { overflow_idx = no_index })
          (put_node
            (record t { huge_ovf = s; overflow_arena = b })
            p
            (record n { overflow_idx = no_index }))
  unfolding get_overflow_idx
  empty_table-Shrinks oi y s b idx there empty f off =
      let gone : (q : ℕ) → table_of t (some oi) q ≡ none =
        λ q. ground (arith, there, find-empty m.huge t.huge_ovf y q empty) in
      record {
        nodes = λ j. m.nodes.get-set t.map p (record n { overflow_idx = no_index }) n j at;
        store = subst (StoreIsValid m.huge (oi ∷ vacant) b) (sym f.same_slab) f.valid;
        childs = v.childs p n at;
        kept = λ k ne old now. elim (same_or oi k) [
          | inl same ↦ ne (idx ∙ ap some same)
          | inr other ↦ old (sym (f.stores.elsewhere k other) ∙ now)
        ];
        mine = λ k e. absurd (ground (arith, e));
        own = λ k e. absurd (ground (arith, e));
        apart = λ q. inr refl;
        here = λ q. elim (same_or r q) [
          | inl same ↦ ground (arith, same, off)
          | inr ne ↦ ground (arith, ne, idx, gone q, at)
        ];
        elsewhere = λ k q ne old. elim (same_or oi k) [
          | inl same ↦ absurd (ne (idx ∙ ap some same))
          | inr other ↦ ground (arith, f.stores.elsewhere k other, f.same_slab)
        ];
        same_body = refl;
        tags = λ j. m.nodes.tagged-set t.map p (record n { overflow_idx = no_index }) j;
        root = refl;
        clock = refl;
      }
