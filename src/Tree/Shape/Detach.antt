-- ===== src/Tree/Shape/Detach.antt =====
-- `remove_child` takes one link away, from whatever table has it.
use radixox.Common.{
  ℕ, ◌≡◌, refl, sym, ◌∙◌, inl, inr, List, ◌∷◌, Option, none, some, Option-cases, Bool-cases,
  same_or, arith, Returns, no_index,
}
use radixox.Overflow.{Overflow}
use radixox.Overflow
use radixox.Overflow.Remove.{remove-Removes}
use radixox.Arena
use radixox.Arena.Laws.{held}
use radixox.Arena.Store.{put-Stores}
use radixox.Arena.Release.{free-Released}
use radixox.Childs
use radixox.Childs.Laws.{find-remove}
use radixox.Node.{Node, get_overflow_idx}
use radixox.Tree.{Crates, Tree, try_get_node, put_node}
use radixox.Tree.Link.{remove_child, overflow_remove, shrink}
use radixox.Tree.Shape.{child_of, IsValid, Links, held-get}
use radixox.Tree.Shape.Change.{Changes, Changes-IsValid, Changes-Links, in_table-Changes}
use radixox.Tree.Shape.Shrink.{in_node-Shrinks, no_child-Shrinks, empty_table-Shrinks}

-- That the node `p` has no child under `r` is the one change from `t` to `t'`.
pub record Detached {V : Type 0} {m : Crates V} (t : Tree m) (p r : ℕ) (t' : Tree m) : Type 0 where
  pub vacant : List ℕ
  pub valid : IsValid vacant t'
  pub links : Links t p r none t'

Links-trans :
    {V : Type 0} {m : Crates V} {t t' t'' : Tree m} {p r : ℕ} {w : Option ℕ}
    → Links t p r w t'
    → Links t' p r w t''
    → Links t p r w t''
Links-trans {p} {r} a b = record {
  reads = λ j q. b.reads j q ∙ ground (arith, a.reads j q);
  bodies = λ j. b.bodies j ∙ a.bodies j;
  tags = λ j. b.tags j ∙ a.tags j;
  root = b.root ∙ a.root;
  clock = b.clock ∙ a.clock;
}

detached :
    {V : Type 0} {m : Crates V} (vacant : List ℕ) (t : Tree m) (v : IsValid vacant t) (p : ℕ)
    (n : Node V) (at : try_get_node t p ≡ some n) (r : ℕ) (vacant' : List ℕ) (x : Node V)
    (t' : Tree m)
    → Changes vacant t v p n at r none vacant' x t'
    → Detached t p r t'
detached vacant t v p n at r vacant' x t' g = record {
  vacant = vacant';
  valid = Changes-IsValid vacant t v p n at r none vacant' x t' g;
  links = Changes-Links vacant t v p n at r none vacant' x t' g;
}

module _ {V : Type 0} {m : Crates V} (vacant : List ℕ) (t : Tree m) (v : IsValid vacant t) (p : ℕ)
    (n : Node V) (at : try_get_node t p ≡ some n) (r : ℕ)
    (off : Childs.find n.childs r ≡ none) where
  shrink-Detached :
      (oi : ℕ) (y : Overflow)
      → get_overflow_idx n ≡ some oi
      → held t.overflow_arena oi ≡ some y
      → child_of t p r ≡ none
      → Returns (shrink t p oi y) (Detached t p r)
  unfolding shrink
  shrink-Detached oi y idx there absent = elim (Bool-cases (Overflow.is_empty y)) [
    | inl empty ↦
        let ((s, b), run, f) =
          free-Released m.huge vacant t.overflow_arena t.huge_ovf oi y v.store there empty in
        let x = record n { overflow_idx = no_index } in
        let t' = put_node (record t { huge_ovf = s; overflow_arena = b }) p x in
        (
          t',
          rw (empty, run, at) refl,
          detached vacant t v p n at r (oi ∷ vacant) x t'
              (empty_table-Shrinks vacant t v p n at r oi y s b idx there empty f off),
        )
    | inr more ↦ (
      t,
      rw more refl,
      detached vacant t v p n at r vacant n t (no_child-Shrinks vacant t v p n at r absent),
    )
  ]

module _ {V : Type 0} {m : Crates V} (vacant : List ℕ) (t : Tree m) (v : IsValid vacant t) (p : ℕ)
    (n : Node V) (at : try_get_node t p ≡ some n) (r : ℕ)
    (off : Childs.find n.childs r ≡ none) where
  overflow_remove-Detached : Returns (overflow_remove t p (get_overflow_idx n) r) (Detached t p r)
  unfolding overflow_remove
  overflow_remove-Detached = elim (Option-cases (get_overflow_idx n)) [
    | inl nothing ↦ (
      t,
      rw nothing refl,
      detached vacant t v p n at r vacant n t
          (no_child-Shrinks vacant t v p n at r (ground (arith, at, off, nothing))),
    )
    | inr (oi, idx) ↦ elim (Option-cases (held t.overflow_arena oi)) [
      | inl nothing ↦ absurd (v.table p oi n at idx nothing)
      | inr (o, there) ↦
          let removed = Overflow.remove m.huge t.huge_ovf o r in
          let s = removed.1 in
          let y = removed.2 in
          let f = remove-Removes m.huge t.huge_ovf o (v.store.tables oi o there) r in
          let t1 = record t { huge_ovf = s; overflow_arena = Arena.put t.overflow_arena oi y } in
          let g = in_table-Changes vacant t v p n at r none off oi o s y idx there f.writes in
          let first = detached vacant t v p n at r vacant n t1 g in
          let written = (put-Stores vacant t.overflow_arena oi o y v.store.arena there).1.here in
          let (t', run, second) =
            shrink-Detached vacant t1 (Changes-IsValid vacant t v p n at r none vacant n t1 g) p n
              at r off oi y idx written (ground (arith, first.links.reads p r)) in
          (
            t',
            rw (idx, held-get t oi o there) run,
            record {
              vacant = second.vacant;
              valid = second.valid;
              links = Links-trans first.links second.links;
            },
          )
    ]
  ]

module _ {V : Type 0} {m : Crates V} (vacant : List ℕ) (t : Tree m) (v : IsValid vacant t)
    (p r : ℕ) where
  from_node :
      (n : Node V) → try_get_node t p ≡ some n → Returns (remove_child t p r) (Detached t p r)
  unfolding remove_child
  from_node n at =
      let f = find-remove n.childs r (v.childs p n at) in
      let (o, c) = Childs.remove n.childs r in
      elim (Option-cases o) [
        | inl off ↦
            let (t', run, d) = overflow_remove-Detached vacant t v p n at r (sym f.returns ∙ off) in
            (t', rw (remove_child, at, off) run, d)
        | inr (k, found) ↦
            let t' = put_node t p (record n { childs = c }) in
            (
              t',
              rw (remove_child, at, found) refl,
              detached vacant t v p n at r vacant (record n { childs = c }) t'
                  (in_node-Shrinks vacant t v p n at r o c k f found),
            )
      ]

  -- In a well-formed tree `remove_child` does not panic; the tree stays well-formed, the node has no
  -- child under the radix, and every other link, value, compression, time, tag and index is as it was.
  pub remove_child-Detached : Returns (remove_child t p r) (Detached t p r)
  unfolding remove_child
  remove_child-Detached = elim (Option-cases (try_get_node t p)) [
    | inl missing ↦ (
      t,
      rw (remove_child, missing) refl,
      record {
        vacant = vacant;
        valid = v;
        links = record {
          reads = λ j q. elim (same_or p j) [
            | inl same ↦ ground (arith, same, missing)
            | inr ne ↦ ground (arith, ne)
          ];
          bodies = λ j. refl;
          tags = λ j. refl;
          root = refl;
          clock = refl;
        };
      },
    )
    | inr (n, at) ↦ from_node n at
  ]
