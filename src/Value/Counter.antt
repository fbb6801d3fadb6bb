-- ===== src/Value/Counter.antt =====
-- The counters of oxidart/src/counter.rs, on the tree.
pub mod Laws
use radixox.Common.{
  ℕ, ◌≡◌, refl, sym, ap, ◌∙◌, ◌⊎◌, inl, inr, Bool, true, false, if◌then◌else◌, List, [], ◌∷◌,
  Option, none, some, Run, ok, panic, ◌>>=◌, ℤ, pos, negsuc, ◌+ℤ◌, in_i64, wrapping_neg,
}
use radixox.Node.{Node, get_value}
use radixox.Tree.{Crates, Tree, get_node, put_node, traverse_to_key}
use radixox.Tree.Insert.{set}
use radixox.Value.{Value, IntError, overflow, int, incr, to_int}
use radixox.Value.Laws.{counted, incr-counted}

module _ {Z : Type 0} {m : Crates (Value Z)} where
  -- The reply, and the tree whose node holds what has become of its value.
  abbrev pub store :
      Tree m → ℕ → Node (Value Z) → (IntError ⊎ ℤ) × Value Z → (IntError ⊎ ℤ) × Tree m
  store t idx node (inl e, v) = (inl e, t)
  store t idx node (inr n, v) = (inr n, put_node t idx (record node { val = some v }))

  -- Without a value the key is set to `delta`.
  abbrev create : Tree m → List ℕ → ℤ → Run ((IntError ⊎ ℤ) × Tree m)
  create t key delta = do t ← set t key (int delta); ok (inr delta, t)

  -- What becomes of the value that the key leads to, if it has one.
  abbrev pub count_in :
      Tree m → List ℕ → ℤ → ℕ → Node (Value Z) → Option (Value Z) → Run ((IntError ⊎ ℤ) × Tree m)
  count_in t key delta idx node none = create t key delta
  count_in t key delta idx node (some v) = ok (store t idx node (incr v delta))

  unfoldable pub incrby : Tree m → List ℕ → ℤ → Run ((IntError ⊎ ℤ) × Tree m)
  incrby t key delta = do
    found ← traverse_to_key t key
    elim found [
      | none ↦ create t key delta
      | some idx ↦ do node ← get_node t idx; count_in t key delta idx node (get_value node t.now)
    ]

  unfoldable pub incr_one : Tree m → List ℕ → Run ((IntError ⊎ ℤ) × Tree m)
  incr_one t key = incrby t key (pos 1)

  unfoldable pub decr_one : Tree m → List ℕ → Run ((IntError ⊎ ℤ) × Tree m)
  decr_one t key = incrby t key (negsuc 0)

  unfoldable pub decrby : Tree m → List ℕ → ℤ → Run ((IntError ⊎ ℤ) × Tree m)
  decrby t key delta = incrby t key (wrapping_neg delta)
