-- ===== src/Tree/Shape/Change.antt =====
-- A change of the child that one node has under one radix: what it must leave alone for the tree to
-- stay well-formed, with that link as the only change.
use radixox.Common.{
  ℕ, ◌≡◌, ◌≢◌, refl, sym, subst, ap, ◌∙◌, ◌==◌, if◌then◌else◌, ◌⊎◌, inl, inr, List, none, some,
  Option-cases, same_or, arith, Option, or_lookup,
}
use radixox.Overflow.{Overflow, default}
use radixox.Overflow
use radixox.Overflow.Laws.{HasRoom}
use radixox.Arena.Laws.{held}
use radixox.Arena.Store.{StoreIsValid, Writes-Updates}
use radixox.Arena
use radixox.Childs.{is_full}
use radixox.Childs
use radixox.Childs.Laws
use radixox.Node.{Node, get_overflow_idx}
use radixox.Tree.{Crates, Tree, try_get_node}
use radixox.Tree.Shape.{table_of, child_of, body, IsValid, Links}

module _ {V : Type 0} {m : Crates V} (vacant : List ℕ) (t : Tree m) (v : IsValid vacant t) (p : ℕ)
    (n : Node V) (at : try_get_node t p ≡ some n) (r : ℕ) (w : Option ℕ) where
  -- In `t'` the node is `x`, with the child `w` under `r`; nothing else reads differently.
  pub record Changes (vacant' : List ℕ) (x : Node V) (t' : Tree m) : Type 0 where
    pub nodes : (j : ℕ) → try_get_node t' j ≡ (if p == j then some x else try_get_node t j)
    pub store : StoreIsValid m.huge vacant' t'.overflow_arena t'.huge_ovf
    pub childs : Childs.Laws.IsValid x.childs
    pub kept :
        (k : ℕ)
        → get_overflow_idx n ≢ some k
        → held t.overflow_arena k ≢ none
        → held t'.overflow_arena k ≢ none
    pub mine : (k : ℕ) → get_overflow_idx x ≡ some k → held t'.overflow_arena k ≢ none
    pub own :
        (k : ℕ)
        → get_overflow_idx x ≡ some k
        → (get_overflow_idx n ≡ some k) ⊎ (held t.overflow_arena k ≡ none)
    pub apart :
        (q : ℕ) → (Childs.find x.childs q ≡ none) ⊎ (table_of t' (get_overflow_idx x) q ≡ none)
    pub here :
        (q : ℕ)
        → or_lookup (Childs.find x.childs q) (table_of t' (get_overflow_idx x) q)
          ≡ (if r == q then w else child_of t p q)
    pub elsewhere :
        (k q : ℕ)
        → get_overflow_idx n ≢ some k
        → held t.overflow_arena k ≢ none
        → table_of t' (some k) q ≡ table_of t (some k) q
    pub same_body : body x ≡ body n
    pub tags : (j : ℕ) → m.nodes.tagged t'.map j ≡ m.nodes.tagged t.map j
    pub root : t'.root_idx ≡ t.root_idx
    pub clock : t'.now ≡ t.now

  module _ (vacant' : List ℕ) (x : Node V) (t' : Tree m) (g : Changes vacant' x t') where
    was : (j : ℕ) (y : Node V) → p ≢ j → try_get_node t' j ≡ some y → try_get_node t j ≡ some y
    was j y ne e = ground (arith, g.nodes j)

    is_x : (j : ℕ) (y : Node V) → p ≡ j → try_get_node t' j ≡ some y → x ≡ y
    is_x j y same e = ground (arith, g.nodes j)

    -- Another node's table reads as before.
    other :
        (j q : ℕ) (y : Node V)
        → p ≢ j
        → try_get_node t j ≡ some y
        → table_of t' (get_overflow_idx y) q ≡ table_of t (get_overflow_idx y) q
    other j q y ne e = elim (Option-cases (get_overflow_idx y)) [
      | inl nothing ↦ rw nothing
      | inr (k, idx) ↦
          rw idx
            (g.elsewhere k q (λ mine. ne (v.owner p j k n y at e mine idx)) (v.table j k y e idx))
    ]

    not_shared :
        (j k : ℕ) (y : Node V)
        → p ≢ j
        → try_get_node t j ≡ some y
        → get_overflow_idx x ≡ some k
        → get_overflow_idx y ≡ some k
        → ⊥
    not_shared j k y ne e ex ey = elim (g.own k ex) [
      | inl mine ↦ ne (v.owner p j k n y at e mine ey)
      | inr free ↦ v.table j k y e ey free
    ]

    pub Changes-IsValid : IsValid vacant' t'
    Changes-IsValid = record {
      store = g.store;
      childs = λ j y e. elim (same_or p j) [
        | inl same ↦ subst (λ z. Childs.Laws.IsValid z.childs) (is_x j y same e) g.childs
        | inr ne ↦ v.childs j y (was j y ne e)
      ];
      table = λ j k y e idx. elim (same_or p j) [
        | inl same ↦ g.mine k (ap get_overflow_idx (is_x j y same e) ∙ idx)
        | inr ne ↦
            g.kept k (λ mine. ne (v.owner p j k n y at (was j y ne e) mine idx))
              (v.table j k y (was j y ne e) idx)
      ];
      apart = λ j q y e. elim (same_or p j) [
        | inl same ↦
            subst
              (λ z. (Childs.find z.childs q ≡ none) ⊎ (table_of t' (get_overflow_idx z) q ≡ none))
              (is_x j y same e) (g.apart q)
        | inr ne ↦ rw (other j q y ne (was j y ne e)) (v.apart j q y (was j y ne e))
      ];
      owner = λ j l k y z ey ez iy iz. elim (same_or p j) [
        | inl sj ↦ elim (same_or p l) [
          | inl sl ↦ sym sj ∙ sl
          | inr nl ↦
              absurd
                (not_shared l k z nl (was l z nl ez) (ap get_overflow_idx (is_x j y sj ey) ∙ iy) iz)
        ]
        | inr nj ↦ elim (same_or p l) [
          | inl sl ↦
              absurd
                (not_shared j k y nj (was j y nj ey) (ap get_overflow_idx (is_x l z sl ez) ∙ iz) iy)
          | inr nl ↦ v.owner j l k y z (was j y nj ey) (was l z nl ez) iy iz
        ]
      ];
    }

    pub Changes-Links : Links t p r w t'
    Changes-Links = record {
      reads = λ j q. elim (same_or p j) [
        | inl same ↦ ground (arith, same, g.nodes j, g.here q, at)
        | inr ne ↦ elim (Option-cases (try_get_node t j)) [
          | inl nothing ↦ ground (arith, ne, g.nodes j, nothing)
          | inr (y, e) ↦ ground (arith, ne, g.nodes j, e, other j q y ne e)
        ]
      ];
      bodies = λ j. elim (same_or p j) [
        | inl same ↦ ground (arith, same, g.nodes j, g.same_body, at)
        | inr ne ↦ ground (arith, ne, g.nodes j)
      ];
      tags = g.tags;
      root = g.root;
      clock = g.clock;
    }

  -- A write to the table of the node changes the child, if the node itself has none there.
  pub in_table-Changes :
      (off : Childs.find n.childs r ≡ none) (oi : ℕ) (o : Overflow) (s : m.huge.Slab) (y : Overflow)
      → get_overflow_idx n ≡ some oi
      → held t.overflow_arena oi ≡ some o
      → Overflow.Laws.Writes m.huge t.huge_ovf o r w (s, y)
      → Changes vacant n
          (record t { huge_ovf = s; overflow_arena = Arena.put t.overflow_arena oi y })
  in_table-Changes off oi o s y idx there u =
      let (store, d) =
        Writes-Updates m.huge vacant t.overflow_arena t.huge_ovf v.store oi o there r w s y u in
      record {
        nodes = λ j. elim (same_or p j) [
          | inl same ↦ ground (arith, same, at)
          | inr ne ↦ ground (arith, ne)
        ];
        store = store;
        childs = v.childs p n at;
        kept = λ k _ old gone. old ((d.occupied k).0 gone);
        mine = λ k e gone. v.table p k n at e ((d.occupied k).0 gone);
        own = λ k e. inl e;
        apart = λ q. elim (same_or r q) [
          | inl same ↦ inl (subst (λ z. Childs.find n.childs z ≡ none) same off)
          | inr ne ↦ ground (arith, ne, idx, d.reads oi q, v.apart p q n at)
        ];
        here = λ q. elim (same_or r q) [
          | inl same ↦ ground (arith, same, idx, d.reads oi q, off, at)
          | inr ne ↦ ground (arith, ne, idx, d.reads oi q, at)
        ];
        elsewhere = λ k q ne _. ground (arith, idx, ne, d.reads k q);
        same_body = refl;
        tags = λ j. refl;
        root = refl;
        clock = refl;
      }
