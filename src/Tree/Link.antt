-- ===== src/Tree/Link.antt =====
-- The links from a node to its children: `push_child_idx`, `remove_child`, `iter_all_children` and
-- `try_recompress` of oxidart/src/lib.rs.
use radixox.Common.{
  ℕ, Bool, true, false, List, [], ◌∷◌, ◌++◌, Option, none, some, Run, ok, expect, ◌>>=◌,
  if◌then◌else◌, no_index,
}
use radixox.Overflow
use radixox.Arena
use radixox.Childs
use radixox.Node.{Node, has_val, get_overflow_idx, get_single_child}
use radixox.Tree.{Crates, Tree, try_get_node, get_node, put_node}

-- The parent takes over what the child holds, its packed time and radix included.
abbrev pub merged : {V : Type 0} → Node V → ℕ → Node V → Node V
merged node child_radix child = record node {
  compression = node.compression ++ child_radix ∷ child.compression;
  childs = child.childs;
  val = child.val;
  exp_and_radix = child.exp_and_radix;
  overflow_idx = child.overflow_idx;
}

module _ {V : Type 0} {m : Crates V} where
  -- `overflow_arena.get_mut(oi).expect(..).push(radix, idx)`
  unfoldable pub overflow_push : Tree m → ℕ → ℕ → ℕ → Run (Tree m)
  overflow_push t oi radix idx = do
    o ← Arena.get t.overflow_arena oi
    x ← expect o
    (s, y) ← Overflow.push m.huge t.huge_ovf x radix idx
    ok (record t { huge_ovf = s; overflow_arena = Arena.put t.overflow_arena oi y })

  unfoldable pub alloc_overflow_with_first : Tree m → ℕ → ℕ → Run (ℕ × Tree m)
  unfolding overflow_push
  alloc_overflow_with_first t radix idx = do
    (slot, arena) ← Arena.alloc t.overflow_arena
    t' ← overflow_push (record t { overflow_arena = arena }) slot radix idx
    ok (slot, t')

  -- The child goes into the node, into a new overflow table, or into the one that is there.
  unfoldable pub attach : Tree m → ℕ → Bool → Option ℕ → ℕ → ℕ → Run (Tree m)
  unfolding overflow_push alloc_overflow_with_first
  attach t parent_idx false oi radix idx = do
    node ← get_node t parent_idx
    c ← Childs.push node.childs radix idx
    ok (put_node t parent_idx (record node { childs = c }))
  attach t parent_idx true none radix idx = do
    (slot, t') ← alloc_overflow_with_first t radix idx
    node ← get_node t' parent_idx
    ok (put_node t' parent_idx (record node { overflow_idx = slot }))
  attach t parent_idx true (some oi) radix idx = overflow_push t oi radix idx

  unfoldable pub push_child_idx : Tree m → ℕ → ℕ → ℕ → Run (Tree m)
  push_child_idx t parent_idx idx radix = do
    node ← get_node t parent_idx
    attach t parent_idx (Childs.is_full node.childs) (get_overflow_idx node) radix idx

  -- An overflow table that has become empty is given back.
  unfoldable pub shrink : Tree m → ℕ → ℕ → Overflow.Overflow → Run (Tree m)
  shrink t parent_idx oi y =
      if Overflow.is_empty y
      then (do
        (s, arena) ← Arena.free m.huge t.huge_ovf t.overflow_arena oi
        let t' = record t { huge_ovf = s; overflow_arena = arena }
        node ← get_node t' parent_idx
        ok (put_node t' parent_idx (record node { overflow_idx = no_index })))
      else ok t

  unfoldable pub overflow_remove : Tree m → ℕ → Option ℕ → ℕ → Run (Tree m)
  unfolding shrink
  overflow_remove t parent_idx none radix = ok t
  overflow_remove t parent_idx (some oi) radix = do
    o ← Arena.get t.overflow_arena oi
    elim o [
      | none ↦ ok t
      | some x ↦
          let (_, s, y) = Overflow.remove m.huge t.huge_ovf x radix in
          shrink (record t { huge_ovf = s; overflow_arena = Arena.put t.overflow_arena oi y })
            parent_idx oi y
    ]

  unfoldable pub remove_child : Tree m → ℕ → ℕ → Run (Tree m)
  unfolding overflow_remove
  remove_child t parent_idx radix = elim (try_get_node t parent_idx) [
    | none ↦ ok t
    | some parent ↦
        let (found, c) = Childs.remove parent.childs radix in
        elim found [
          | some _ ↦ ok (put_node t parent_idx (record parent { childs = c }))
          | none ↦ overflow_remove t parent_idx (get_overflow_idx parent) radix
        ]
  ]

  -- The entries of an overflow table, if the slot holds one.
  overflow_entries : Tree m → Option ℕ → Run (List (ℕ × ℕ))
  overflow_entries t none = ok []
  overflow_entries t (some oi) = do
    o ← Arena.get t.overflow_arena oi
    ok (elim o [ none ↦ [] | some x ↦ Overflow.iter m.huge t.huge_ovf x ])

  -- The radixes and indices that `iter_all_children` visits, in its order.
  unfoldable pub children : Tree m → Node V → Run (List (ℕ × ℕ))
  unfolding overflow_entries
  children t node = do
    es ← overflow_entries t (get_overflow_idx node)
    ok (Childs.iter node.childs ++ es)

  -- `grandchild.parent_idx = node_idx`, for each that is there
  abbrev adopt : Tree m → ℕ → List (ℕ × ℕ) → Tree m
  adopt t node_idx [] = t
  adopt t node_idx (e ∷ es) =
      adopt
        (elim (try_get_node t e.1) [
          | none ↦ t
          | some g ↦ put_node t e.1 (record g { parent_idx = node_idx })
        ])
        node_idx es

  absorb : Tree m → ℕ → ℕ → ℕ → Node V → Run (Tree m)
  absorb t node_idx child_radix child_idx child = do
    es ← children t child
    let t' = adopt (record t { map = m.nodes.remove t.map child_idx }) node_idx es
    node ← get_node t' node_idx
    ok (put_node t' node_idx (merged node child_radix child))

  unfoldable pub try_recompress : Tree m → ℕ → Run (Tree m)
  unfolding absorb
  try_recompress t node_idx = elim (try_get_node t node_idx) [
    | none ↦ ok t
    | some node ↦ if has_val node then ok t else (elim (get_single_child node) [
      | none ↦ ok t
      | some c ↦ elim (try_get_node t c.1) [
        | none ↦ ok t
        | some child ↦ absorb t node_idx c.0 c.1 child
      ]
    ])
  ]
