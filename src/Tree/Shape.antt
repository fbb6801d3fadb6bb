-- ===== src/Tree/Shape.antt =====
-- What the links of a well-formed tree mean: under a node and a radix, at most one child.
pub mod Start
pub mod Change
pub mod Grow
pub mod Attach
pub mod Shrink
pub mod Detach
use radixox.Common.{
  ℕ, ◌≡◌, ◌≢◌, ◌<◌, refl, ◌==◌, ◌&&◌, if◌then◌else◌, ◌⊎◌, inl, inr, List, Option, none, some,
  Option-cases, ok, arith, or_lookup, length, no_index, get_elem?-lt, Bool,
}
use radixox.Overflow.{Overflow}
use radixox.Overflow.Laws.{HasRoom}
use radixox.Arena.Laws.{held, held-item, get-held}
use radixox.Arena.Store.{table_find, StoreIsValid}
use radixox.Arena
use radixox.Childs
use radixox.Childs.Laws
use radixox.Node.{Node, get_overflow_idx}
use radixox.Tree.{Crates, Tree, try_get_node, find, overflow_find, node_find}

-- What a node holds besides its links to children.
abbrev pub body : {V : Type 0} → Node V → List ℕ × Option V × ℕ × ℕ
body n = (n.compression, n.val, n.exp_and_radix, n.parent_idx)

module _ {V : Type 0} {m : Crates V} where
  -- The child under a radix in the overflow table of a node.
  abbrev pub table_of : Tree m → Option ℕ → ℕ → Option ℕ
  table_of t none q = none
  table_of t (some oi) q = table_find m.huge t.overflow_arena t.huge_ovf oi q

  -- The child of the node `i` under a radix.
  abbrev pub child_of : Tree m → ℕ → ℕ → Option ℕ
  child_of t i q = elim (try_get_node t i) [
    | none ↦ none
    | some n ↦ or_lookup (Childs.find n.childs q) (table_of t (get_overflow_idx n) q)
  ]

  abbrev pub body_at : Tree m → ℕ → Option (List ℕ × Option V × ℕ × ℕ)
  body_at t i = elim (try_get_node t i) [ none ↦ none | some n ↦ some (body n) ]

  -- Every table is valid and belongs to one node; no radix is in both tables of a node.
  pub record IsValid (vacant : List ℕ) (t : Tree m) : Type 0 where
    pub store : StoreIsValid m.huge vacant t.overflow_arena t.huge_ovf
    pub childs : (i : ℕ) (n : Node V) → try_get_node t i ≡ some n → Childs.Laws.IsValid n.childs
    pub table :
        (i oi : ℕ) (n : Node V)
        → try_get_node t i ≡ some n
        → get_overflow_idx n ≡ some oi
        → held t.overflow_arena oi ≢ none
    pub apart :
        (i q : ℕ) (n : Node V)
        → try_get_node t i ≡ some n
        → (Childs.find n.childs q ≡ none) ⊎ (table_of t (get_overflow_idx n) q ≡ none)
    pub owner :
        (i j oi : ℕ) (n p : Node V)
        → try_get_node t i ≡ some n
        → try_get_node t j ≡ some p
        → get_overflow_idx n ≡ some oi
        → get_overflow_idx p ≡ some oi
        → i ≡ j

  -- From `t` to `t'` the link of `p` under `r` became `w`; every other link, and all that the nodes
  -- hold besides, is as before.
  pub record Links (t : Tree m) (p r : ℕ) (w : Option ℕ) (t' : Tree m) : Type 0 where
    pub reads : (j q : ℕ) → child_of t' j q ≡ (if p == j && r == q then w else child_of t j q)
    pub bodies : (j : ℕ) → body_at t' j ≡ body_at t j
    pub tags : (j : ℕ) → m.nodes.tagged t'.map j ≡ m.nodes.tagged t.map j
    pub root : t'.root_idx ≡ t.root_idx
    pub clock : t'.now ≡ t.now

  held-get :
      (t : Tree m) (oi : ℕ) (o : Overflow)
      → held t.overflow_arena oi ≡ some o
      → Arena.get t.overflow_arena oi ≡ ok (some o)
  held-get t oi o h = ground (
    arith,
    h,
    get-held t.overflow_arena oi
        (get_elem?-lt t.overflow_arena.slots oi (Arena.item o) (held-item t.overflow_arena oi o h)),
  )

  overflow_find-table_of :
      (t : Tree m) (oi : Option ℕ) (q : ℕ)
      → ((k : ℕ) → oi ≡ some k → held t.overflow_arena k ≢ none)
      → overflow_find t oi q ≡ ok (table_of t oi q)
  overflow_find-table_of t none q there = refl
  overflow_find-table_of t (some oi) q there = elim (Option-cases (held t.overflow_arena oi)) [
    | inl nothing ↦ absurd (there oi refl nothing)
    | inr (o, e) ↦ ground (arith, held-get t oi o e, e)
  ]

  -- In a well-formed tree the search of the code does not panic, and returns the child that the
  -- links give under the radix, if there is one.
  pub find-child_of :
      (vacant : List ℕ) (t : Tree m) (i q : ℕ) → IsValid vacant t → find t i q ≡ ok (child_of t i q)
  unfolding find
  find-child_of vacant t i q v = elim (Option-cases (try_get_node t i)) [
    | inl e ↦ ground (arith, e)
    | inr (n, e) ↦
        ground
          (arith, e, overflow_find-table_of t (get_overflow_idx n) q (λ k at. v.table i k n e at))
  ]

  -- There is room for one more child of the node.
  pub record RoomFor (t : Tree m) (n : Node V) : Type 0 where
    pub slots : length t.overflow_arena.slots < no_index
    pub cells :
        (oi : ℕ) (o : Overflow)
        → get_overflow_idx n ≡ some oi
        → held t.overflow_arena oi ≡ some o
        → HasRoom m.huge t.huge_ovf o
