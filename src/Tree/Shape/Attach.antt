-- ===== src/Tree/Shape/Attach.antt =====
-- `push_child_idx` links one more child, whatever table has room for it.
use radixox.Common.{
  ℕ, ◌≡◌, ◌≢◌, refl, true, false, inl, inr, List, none, some, Option-cases, Bool-cases, arith,
  Returns,
}
use radixox.Overflow.{default}
use radixox.Overflow.Push.{push-Writes}
use radixox.Arena.Laws.{held}
use radixox.Arena.First.{alloc-First}
use radixox.Arena
use radixox.Childs.{is_full}
use radixox.Childs.Laws.{find-push}
use radixox.Node.{Node, get_overflow_idx}
use radixox.Tree.{Crates, Tree, try_get_node, put_node}
use radixox.Tree.Link.{attach, overflow_push, alloc_overflow_with_first, push_child_idx}
use radixox.Tree.Shape.{child_of, IsValid, Links, RoomFor, held-get}
use radixox.Tree.Shape.Change.{Changes, Changes-IsValid, Changes-Links, in_table-Changes}
use radixox.Tree.Shape.Grow.{not_in_node, not_in_table, in_node-Grows, in_new_table-Grows}

-- The child `i` of the node `p` under `r` is the one change from `t` to `t'`.
pub record Attached {V : Type 0} {m : Crates V} (t : Tree m) (p r i : ℕ) (t' : Tree m)
    : Type 0 where
  pub vacant : List ℕ
  pub valid : IsValid vacant t'
  pub links : Links t p r (some i) t'

module _ {V : Type 0} {m : Crates V} (vacant : List ℕ) (t : Tree m) (v : IsValid vacant t) (p : ℕ)
    (n : Node V) (at : try_get_node t p ≡ some n) (r i : ℕ) (absent : child_of t p r ≡ none)
    (nz : r ≢ 0) (room : RoomFor t n) where
  attached :
      (vacant' : List ℕ) (x : Node V) (t' : Tree m)
      → Changes vacant t v p n at r (some i) vacant' x t'
      → Attached t p r i t'
  attached vacant' x t' g = record {
    vacant = vacant';
    valid = Changes-IsValid vacant t v p n at r (some i) vacant' x t' g;
    links = Changes-Links vacant t v p n at r (some i) vacant' x t' g;
  }

  attach_node :
      is_full n.childs ≡ false
      → Returns (attach t p false (get_overflow_idx n) r i) (Attached t p r i)
  unfolding attach is_full
  attach_node free =
      let valid = v.childs p n at in
      let (c, pushed, (valid', _, reads)) =
        find-push n.childs r i valid (ground (arith, valid.within)) nz
          (not_in_node vacant t v p n at r i absent) in
      (
        put_node t p (record n { childs = c }),
        rw (at, pushed) refl,
        attached vacant (record n { childs = c }) (put_node t p (record n { childs = c }))
            (in_node-Grows vacant t v p n at r i absent c valid' reads),
      )

  attach_table :
      (oi : ℕ)
      → get_overflow_idx n ≡ some oi
      → Returns (attach t p true (some oi) r i) (Attached t p r i)
  unfolding attach overflow_push
  attach_table oi idx = elim (Option-cases (held t.overflow_arena oi)) [
    | inl nothing ↦ absurd (v.table p oi n at idx nothing)
    | inr (o, there) ↦
        let ((s, y), pushed, w) =
          push-Writes m.huge t.huge_ovf o (v.store.tables oi o there) r i
            (ground (arith, not_in_table vacant t v p n at r i absent, idx, there))
            (room.cells oi o idx there) in
        let t' = record t { huge_ovf = s; overflow_arena = Arena.put t.overflow_arena oi y } in
        (
          t',
          rw (held-get t oi o there, pushed) refl,
          attached vacant n t' (
              in_table-Changes vacant t v p n at r (some i)
                (not_in_node vacant t v p n at r i absent) oi o s y idx there w),
        )
  ]

  attach_new : get_overflow_idx n ≡ none → Returns (attach t p true none r i) (Attached t p r i)
  unfolding attach overflow_push alloc_overflow_with_first
  attach_new idx =
      let (slot, b, s, y, run, filled, pushed, f) =
        alloc-First m.huge vacant t.overflow_arena t.huge_ovf v.store r i room.slots in
      let x = record n { overflow_idx = slot } in
      let t' = put_node (record t { huge_ovf = s; overflow_arena = Arena.put b slot y }) p x in
      (
        t',
        rw (run, held-get (record t { overflow_arena = b }) slot default filled, pushed, at) refl,
        attached f.rest x t'
            (in_new_table-Grows vacant t v p n at r i absent slot (Arena.put b slot y) s idx f),
      )

  -- In a well-formed tree with room, `push_child_idx` for a node and a radix other than 0 under which
  -- the node has no child does not panic; the tree stays well-formed, the new child is found under
  -- the radix, and every other link, value, compression, tag and index is as it was.
  pub push_child_idx-Attached : Returns (push_child_idx t p i r) (Attached t p r i)
  unfolding push_child_idx
  push_child_idx-Attached = elim (Bool-cases (is_full n.childs)) [
    | inr free ↦ let (t', run, a) = attach_node free in (t', rw (at, free) run, a)
    | inl full ↦ elim (Option-cases (get_overflow_idx n)) [
      | inl none_yet ↦
          let (t', run, a) = attach_new none_yet in (t', rw (at, full, none_yet) run, a)
      | inr (oi, idx) ↦ let (t', run, a) = attach_table oi idx in (t', rw (at, full, idx) run, a)
    ]
  ]
