-- ===== src/Value/Borrowed.antt =====
-- How oxidart/src/scommand.rs and oxidart/src/zcommand.rs borrow a value of one type, or put a new one:
-- `get_btree_set_mut` and `get_zset_mut`. A borrowed value is the index of its node, with the value.
pub mod Laws
use radixox.Common.{
  ℕ, Bool, true, false, ◌&&◌, if◌then◌else◌, List, [], ◌∷◌, Option, none, some, ◌⊎◌, inl, inr, Run,
  ok, panic, expect, ◌>>=◌,
}
use radixox.Expiry
use radixox.Node.{Node, get_value}
use radixox.Tree.{Crates, Tree, get_node, put_node}
use radixox.Tree.Insert.{ensure_key}
use radixox.Value.{Value, RedisType, as_set, as_zset}
use radixox.Value.{set as set_value, zset as zset_value}
use radixox.Value.HashCommands.{TypeError, value_not_set, with_ttl, get_mut}

module _ {Z : Type 0} {m : Crates (Value Z)} where
  -- A write through the borrowed value.
  abbrev pub put_value : Tree m → ℕ → Value Z → Run (Tree m)
  put_value t idx v = do node ← get_node t idx; ok (put_node t idx (record node { val = some v }))

  module _ {X : Type 0} (as_x : Value Z → RedisType ⊎ X) where
    abbrev pub lend : Tree m → ℕ → RedisType ⊎ X → (TypeError ⊎ (ℕ × X)) × Tree m
    lend t idx (inl other) = (inl value_not_set, t)
    lend t idx (inr x) = (inr (idx, x), t)

    -- The last lines: the value is expected to be there, and of the type.
    abbrev pub borrow : Tree m → ℕ → Run ((TypeError ⊎ (ℕ × X)) × Tree m)
    borrow t idx = do
      node ← get_node t idx
      v ← expect (get_value node t.now)
      ok (lend t idx (as_x v))

    -- A value of another type is an error.
    abbrev pub proceed : Tree m → ℕ → RedisType ⊎ X → Run ((TypeError ⊎ (ℕ × X)) × Tree m)
    proceed t idx (inl other) = ok (inl value_not_set, t)
    proceed t idx (inr x) = borrow t idx

    -- A node without a value gets the empty one, and the time, if there is one.
    abbrev pub start :
        Value Z
        → Bool
        → Tree m
        → Option ℕ
        → ℕ
        → Node (Value Z)
        → Option (Value Z)
        → Run ((TypeError ⊎ (ℕ × X)) × Tree m)
    start empty tags t ttl idx node (some v) = proceed t idx (as_x v)
    start empty tags t ttl idx node none = do
      node ← with_ttl ttl (record node { val = some empty })
      let t' = put_node t idx node
      let tagged = record t' { map = m.nodes.tag t'.map idx }
      borrow (if tags && (elim ttl [ none ↦ false | some e ↦ true ]) then tagged else t') idx

    abbrev pub get_or_new :
        Value Z → Bool → Tree m → Option ℕ → List ℕ → Run ((TypeError ⊎ (ℕ × X)) × Tree m)
    get_or_new empty tags t ttl key = do
      (idx, t) ← ensure_key t key
      node ← get_node t idx
      start empty tags t ttl idx node (get_value node t.now)

    -- What a command reads of the key: `none` where there is no value.
    abbrev pub get_typed : Tree m → List ℕ → Run ((RedisType ⊎ Option (ℕ × X)) × Tree m)
    get_typed t key = do
      (found, t) ← get_mut t key
      elim found [
        | none ↦ ok (inr none, t)
        | some (idx, v) ↦ elim (as_x v) [
          | inl other ↦ ok (inl other, t)
          | inr x ↦ ok (inr (some (idx, x)), t)
        ]
      ]

  -- The time of a new set is not tagged for the evictor.
  unfoldable pub get_btree_set_mut :
      Tree m → Option ℕ → List ℕ → Run ((TypeError ⊎ (ℕ × List (List ℕ))) × Tree m)
  get_btree_set_mut t ttl key = get_or_new as_set (set_value []) false t ttl key
