-- ===== src/Tree.antt =====
-- `OxidArt` of oxidart/src/lib.rs: the adaptive radix tree, its nodes in one slab, their further
-- children in an arena. `Link` keeps the links between nodes, `Insert` and `Remove` change the
-- tree, `Clock` deals with expiry; `Shape` and `Descent` say what a well-formed tree means.
pub mod Link
pub mod Insert
pub mod Remove
pub mod Clock
pub mod Descent
pub mod Shape
pub mod Ttl
pub mod Write
pub mod Sweep
pub mod Chunks
use radixox.Common.{
  ℕ, zero, suc, ◌+◌, List, [], ◌∷◌, Option, none, some, Run, ok, panic, expect, ◌>>=◌, length, drop,
}
use radixox.Slab.{TaggedHiSlab}
use radixox.Overflow.{Huge}
use radixox.Overflow
use radixox.Arena.{Arena}
use radixox.Arena
use radixox.Childs
use radixox.Node.{
  Node, CompResult, path, final, partial, compare_compression_key, get_overflow_idx, default,
}

-- The slabs and vectors that the tree is built on.
pub record Crates (V : Type 0) : Type 1 where
  pub huge : Huge
  pub nodes : TaggedHiSlab (Node V)

pub record Tree {V : Type 0} (m : Crates V) : Type 0 where
  pub map : m.nodes.Slab
  pub overflow_arena : Arena
  -- the thread's slab `HUGE_OVF`
  pub huge_ovf : m.huge.Slab
  pub now : ℕ
  pub root_idx : ℕ

-- Where a node was found: its index, and the link that was followed to it.
pub record Spot : Type 0 where
  pub idx : ℕ
  pub parent_idx : ℕ
  pub parent_radix : ℕ

-- How the loop that follows a key down the tree ends. The key's remaining bytes are those from the
-- cursor on.
pub data Stop : Type 0 where
  -- the node at the index has no child for the first remaining byte
  missing : ℕ → List ℕ → Stop
  -- `CompResult::Final`
  arrived : Spot → Stop
  -- `CompResult::Partial`, with the common length
  halted : ℕ → Spot → List ℕ → Stop
  -- a link leads to no node
  dangling : Stop

abbrev pub reached : Stop → Option ℕ
reached (arrived s) = some s.idx
reached _ = none

module _ {V : Type 0} {m : Crates V} where
  abbrev pub try_get_node : Tree m → ℕ → Option (Node V)
  try_get_node t idx = m.nodes.get t.map idx

  abbrev pub get_node : Tree m → ℕ → Run (Node V)
  get_node t idx = expect (try_get_node t idx)

  -- A write through `get_node_mut`.
  abbrev pub put_node : Tree m → ℕ → Node V → Tree m
  put_node t idx n = record t { map = m.nodes.set t.map idx n }

  abbrev pub overflow_find : Tree m → Option ℕ → ℕ → Run (Option ℕ)
  overflow_find t none radix = ok none
  overflow_find t (some oi) radix = do
    o ← Arena.get t.overflow_arena oi
    ok (elim o [ none ↦ none | some x ↦ Overflow.find m.huge t.huge_ovf x radix ])

  abbrev pub node_find : Tree m → Node V → ℕ → Run (Option ℕ)
  node_find t node radix = elim (Childs.find node.childs radix) [
    | some i ↦ ok (some i)
    | none ↦ overflow_find t (get_overflow_idx node) radix
  ]

  unfoldable pub find : Tree m → ℕ → ℕ → Run (Option ℕ)
  find t idx radix = elim (try_get_node t idx) [
    | none ↦ ok none
    | some node ↦ node_find t node radix
  ]

  -- The loop of `get_idx`, `traverse_to_key`, `del`, `set_internal` and `ensure_key`, from the node
  -- `idx` on. Each round uses up a byte of the key: the fuel is the number of rounds.
  unfoldable pub descend : ℕ → Tree m → ℕ → List ℕ → Run Stop
  descend zero t idx rest = panic
  descend (suc fuel) t idx [] = panic
  descend (suc fuel) t idx (radix ∷ rest) = do
    c ← find t idx radix
    elim c [
      | none ↦ ok (missing idx (radix ∷ rest))
      | some child ↦ elim (try_get_node t child) [
        | none ↦ ok dangling
        | some node ↦ elim (compare_compression_key node.compression rest) [
          | final ↦ ok (arrived (record { idx = child; parent_idx = idx; parent_radix = radix }))
          | partial n ↦
              ok (halted n (record { idx = child; parent_idx = idx; parent_radix = radix }) rest)
          | path ↦ descend fuel t child (drop (length node.compression) rest)
        ]
      ]
    ]

  abbrev pub descend_key : Tree m → List ℕ → Run Stop
  descend_key t key = descend (length key) t t.root_idx key

  unfoldable pub traverse_to_key : Tree m → List ℕ → Run (Option ℕ)
  traverse_to_key t [] = ok (some t.root_idx)
  traverse_to_key t (r ∷ rest) = do s ← descend_key t (r ∷ rest); ok (reached s)

  -- `OxidArt::new`
  unfoldable pub new : Run (Tree m)
  new = do
    (root_idx, map) ← m.nodes.insert m.nodes.empty default
    ok (record {
      map = map;
      overflow_arena = Arena.new;
      huge_ovf = m.huge.slab.empty;
      now = 0;
      root_idx = root_idx;
    })

  unfoldable pub set_now : Tree m → ℕ → Tree m
  set_now t now = record t { now = now }
