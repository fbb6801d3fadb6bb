-- ===== src/Tree/Write/Read.antt =====
-- `set_internal`, and `get` after it, for a key that leads to a node of the tree.
use radixox.Common.{
  ℕ, ◌<◌, ◌≤◌, ◌^◌, ◌≡◌, ◌≢◌, refl, sym, ap, ◌∙◌, subst, false, List, [], ◌∷◌, Option, none, some,
  ok, arith, ◌⊎◌, inl, inr, length, Returns,
}
use native.Mathlib.Nat.{le_refl}
use radixox.Expiry
use radixox.Expiry.Laws.{Packs, time, set_exp-Packs}
use radixox.Node.{Node, set_val, is_expired, get_value}
use radixox.Tree.{
  Crates, Tree, Stop, Spot, arrived, missing, halted, dangling, reached, try_get_node, put_node,
  descend_key, traverse_to_key,
}
use radixox.Tree.Shape.{IsValid}
use radixox.Tree.Descent.{Walks, stop, descend-Leads}
use radixox.Tree.Insert.{set_internal, ensure_key}
use radixox.Tree.Remove.{get, get_idx}
use radixox.Tree.Write.{filled, written, reads, descend-written, traverse-written, written-IsValid}

reached-arrived :
    (s : Stop) (j : ℕ) → reached s ≡ some j → (p : Spot) × (s ≡ arrived p) × (p.idx ≡ j)
reached-arrived (arrived p) j e = (p, refl, cc)
reached-arrived (missing i rest) j e = absurd cc
reached-arrived (halted k p rest) j e = absurd cc
reached-arrived dangling j e = absurd cc

-- A time that does not run out, or has not yet passed.
abbrev pub Lasts : ℕ → ℕ → Type 0
Lasts ttl now = (time ttl ≡ none) ⊎ (now ≤ ttl)

Packs-lives :
    (e r ttl now : ℕ) → Packs (time ttl) r e → Lasts ttl now → Expiry.is_expired e now ≡ false
unfolding Expiry.is_expired
Packs-lives e r ttl now p (inl never) = ground (arith, p.time_field, never)
Packs-lives e r ttl now p (inr later) = ground (arith, p.time_field, later)

shown :
    {V : Type 0} (n : Node V) (now : ℕ)
    → Expiry.is_expired n.exp_and_radix now ≡ false
    → get_value n now ≡ n.val
unfolding get_value is_expired
shown n now lives = ground (arith, lives)

module _ {V : Type 0} {m : Crates V} where
  -- The loop over the key stops at the node.
  abbrev Found : Tree m → List ℕ → ℕ → Type 0
  Found t [] j = t.root_idx ≡ j
  Found t (r ∷ rest) j = (p : Spot) × (descend_key t (r ∷ rest) ≡ ok (arrived p)) × (p.idx ≡ j)

  Walks-Found :
      (vacant : List ℕ) (t : Tree m) (v : IsValid vacant t) (key : List ℕ) (j : ℕ)
      → Walks t t.root_idx key j
      → Found t key j
  Walks-Found vacant t v [] j w = ends w
    where
      ends : {i k : ℕ} → Walks t i [] k → i ≡ k
      ends (stop i) = refl
  Walks-Found vacant t v (r ∷ rest) j w =
      let (s, run, leads) =
        descend-Leads vacant t v (length (r ∷ rest)) t.root_idx r rest (le_refl _) in
      let (p, arr, here) = reached-arrived s j ((leads j).1 w) in (p, run ∙ ap ok arr, here)

  node_at :
      (t : Tree m) {i j : ℕ} {n : Node V}
      → i ≡ j
      → try_get_node t j ≡ some n
      → try_get_node t i ≡ some n
  node_at t {n = n} here at = subst (λ z. try_get_node t z ≡ some n) (sym here) at

  set_internal-Found :
      (t : Tree m) (key : List ℕ) (j : ℕ) (n : Node V) (ttl e : ℕ) (val : V)
      → Found t key j
      → (at : try_get_node t j ≡ some n) → Expiry.set_exp n.exp_and_radix ttl ≡ ok e
      → set_internal t key ttl val ≡ ok (written t j n (some val) e at)
  unfolding set_internal set_val
  set_internal-Found t [] j n ttl e val here at packed =
      rw (node_at t here at, packed)
        (ap (λ z. ok (put_node t z (filled t j n (some val) e at))) here)
  set_internal-Found t (r ∷ rest) j n ttl e val (p, run, here) at packed =
      rw (run, node_at t here at, packed)
        (ap (λ z. ok (put_node t z (filled t j n (some val) e at))) here)

  get-Found :
      (t : Tree m) (key : List ℕ) (j : ℕ) (n : Node V)
      → Found t key j
      → try_get_node t j ≡ some n
      → Expiry.is_expired n.exp_and_radix t.now ≡ false
      → get t key ≡ ok (n.val, t)
  unfolding get get_idx is_expired
  get-Found t [] j n here at lives =
      rw (node_at t here at, lives, node_at t here at) (ap (λ v. ok (v, t)) (shown n t.now lives))
  get-Found t (r ∷ rest) j n (p, run, here) at lives =
      rw (run, node_at t here at, lives, node_at t here at)
        (ap (λ v. ok (v, t)) (shown n t.now lives))

  Found-written :
      (t : Tree m) (key : List ℕ) (j : ℕ) (n : Node V) (val : Option V) (e : ℕ)
      (at : try_get_node t j ≡ some n)
      → Found t key j
      → Found (written t j n val e at) key j
  Found-written t [] j n val e at here = here
  Found-written t (r ∷ rest) j n val e at (p, run, here) = (
    p,
    ap (λ f. f t.root_idx (r ∷ rest)) (descend-written t j n val e at (length (r ∷ rest))) ∙ run,
    here,
  )

  -- For a key that leads to a node, `ensure_key` gives that node and changes nothing.
  pub ensure_key-Walks :
      (vacant : List ℕ) (t : Tree m) (key : List ℕ) (j : ℕ)
      → IsValid vacant t
      → Walks t t.root_idx key j
      → ensure_key t key ≡ ok (j, t)
  unfolding ensure_key
  ensure_key-Walks vacant t [] j v w = ap (λ i. ok (i, t)) (Walks-Found vacant t v [] j w)
  ensure_key-Walks vacant t (r ∷ rest) j v w =
      let (p, run, here) = Walks-Found vacant t v (r ∷ rest) j w in
      rw run (ap (λ i. ok (i, t)) here)

  -- The lookup of a key whose value has not expired changes nothing.
  pub get-Walks :
      (vacant : List ℕ) (t : Tree m) (key : List ℕ) (j : ℕ) (n : Node V)
      → IsValid vacant t
      → Walks t t.root_idx key j
      → try_get_node t j ≡ some n
      → Expiry.is_expired n.exp_and_radix t.now ≡ false
      → get t key ≡ ok (n.val, t)
  get-Walks vacant t key j n v w at lives =
      get-Found t key j n (Walks-Found vacant t v key j w) at lives

  -- For a key that leads to a node with a word of 64 bits in a well-formed tree, and a time of
  -- at most 56 bits that has not passed, `set_internal` does not panic; the tree stays well-
  -- formed, `get` of the key returns the value and changes nothing, every key leads to the node
  -- that it led to, and the other nodes are as they were.
  pub get-set_internal :
      (vacant : List ℕ) (t : Tree m) (key : List ℕ) (ttl : ℕ) (val : V) (j : ℕ) (n : Node V)
      → IsValid vacant t
      → Walks t t.root_idx key j
      → try_get_node t j ≡ some n
      → n.exp_and_radix < 2 ^ 64
      → ttl < 2 ^ 56
      → Lasts ttl t.now
      → Returns (set_internal t key ttl val) (λ t'.
        IsValid vacant t'
        × (get t' key ≡ ok (some val, t'))
        × ((other : List ℕ) → traverse_to_key t' other ≡ traverse_to_key t other)
        × ((i : ℕ) → j ≢ i → try_get_node t' i ≡ try_get_node t i))
  get-set_internal vacant t key ttl val j n v w at word small lasts =
      let (e, packed, packs) = set_exp-Packs n.exp_and_radix ttl word small in
      let found = Walks-Found vacant t v key j w in
      let lives = Packs-lives e (Expiry.parent_radix n.exp_and_radix) ttl t.now packs lasts in
      (
        written t j n (some val) e at,
        set_internal-Found t key j n ttl e val found at packed,
        (
          written-IsValid t j n (some val) e at vacant v,
          get-Found (written t j n (some val) e at) key j (filled t j n (some val) e at)
              (Found-written t key j n (some val) e at found)
              (ground (arith, reads t j n (some val) e at j)) lives,
          traverse-written t j n (some val) e at,
          λ i off. ground (arith, reads t j n (some val) e at i, off),
        ),
      )
