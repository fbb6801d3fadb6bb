-- ===== src/Value/HashCommands.antt =====
-- The commands on hashes of oxidart/src/hcommand.rs, on the tree. A borrowed hash is the index of its
-- node, with the hash; what the command writes goes back into the node.
pub mod Laws
use radixox.Common.{
  ℕ, zero, suc, ◌+◌, ◌%◌, ◌^◌, Bool, true, false, if◌then◌else◌, List, [], ◌∷◌, Option, none, some,
  ◌⊎◌, inl, inr, Run, ok, panic, expect, ◌>>=◌, map, replicate, length, numeral, ℤ, pos,
  checked_add,
}
use radixox.Expiry
use radixox.Node.{Node, get_value}
use radixox.Tree.{Crates, Tree, get_node, put_node}
use radixox.Tree.Insert.{ensure_key}
use radixox.Tree.Remove.{get_idx, del}
use radixox.Value.{Value, RedisType, hash, as_hash, parse_i64}
use radixox.Hash
use radixox.Hash.{Hash}

pub data TypeError : Type 0 where
  value_not_set not_a_int : TypeError

-- The loop over the fields and values, with the number of new fields.
abbrev pub insert_all : List (List ℕ × List ℕ) → ℕ → Hash → ℕ × Hash
insert_all [] added h = (added, h)
insert_all (p ∷ ps) added h =
    let (new, h) = Hash.insert p.0 p.1 h in insert_all ps (if new then added + 1 else added) h

-- The loop over the fields to delete, with the number of deleted ones.
abbrev pub del_all : List (List ℕ) → ℕ → Hash → ℕ × Hash
del_all [] deleted h = (deleted, h)
del_all (f ∷ fs) deleted h =
    let (old, h) = Hash.del f h in del_all fs (elim old [ none ↦ deleted | some v ↦ deleted + 1 ]) h

-- The integer of a field, or 0.
abbrev pub field_int : Option (List ℕ) → Option ℤ
field_int none = some (pos 0)
field_int (some bytes) = parse_i64 bytes

module _ {Z : Type 0} where
  -- The time of a new hash, if one is given.
  abbrev pub with_ttl : Option ℕ → Node (Value Z) → Run (Node (Value Z))
  with_ttl none node = ok node
  with_ttl (some ttl) node = do
    e ← Expiry.set_exp node.exp_and_radix ttl
    ok (record node { exp_and_radix = e })

  -- A node without a value gets an empty hash.
  abbrev pub ready : Option ℕ → Node (Value Z) → Option (Value Z) → Run (TypeError ⊎ Node (Value Z))
  ready ttl node (some v) = elim (as_hash v) [
    | inl other ↦ ok (inl value_not_set)
    | inr h ↦ ok (inr node)
  ]
  ready ttl node none = do
    node ← with_ttl ttl (record node { val = some (hash Hash.new) })
    ok (inr node)

module _ {Z : Type 0} {m : Crates (Value Z)} where
  abbrev pub use_hash :
      Tree m → ℕ → Node (Value Z) → Value Z → Run ((TypeError ⊎ (ℕ × Hash)) × Tree m)
  use_hash t idx node v = elim (as_hash v) [
    | inl other ↦ ok (inl value_not_set, put_node t idx node)
    | inr h ↦ ok (inr (idx, h), put_node t idx node)
  ]

  -- The hash of a node that is ready, which is expected to have a value.
  abbrev pub borrow :
      Tree m → ℕ → TypeError ⊎ Node (Value Z) → Run ((TypeError ⊎ (ℕ × Hash)) × Tree m)
  borrow t idx (inl e) = ok (inl e, t)
  borrow t idx (inr node) = expect (get_value node t.now) >>= use_hash t idx node

  unfoldable pub get_hash_mut : Tree m → Option ℕ → List ℕ → Run ((TypeError ⊎ (ℕ × Hash)) × Tree m)
  get_hash_mut t ttl key = do
    (idx, t) ← ensure_key t key
    node ← get_node t idx
    r ← ready ttl node (get_value node t.now)
    borrow t idx r

  -- A write through the borrowed hash.
  abbrev pub put_hash : Tree m → ℕ → Hash → Run (Tree m)
  put_hash t idx h = do
    node ← get_node t idx
    ok (put_node t idx (record node { val = some (hash h) }))

  unfoldable pub cmd_hset :
      Tree m → List ℕ → List (List ℕ × List ℕ) → Option ℕ → Run ((TypeError ⊎ ℕ) × Tree m)
  cmd_hset t key field_values ttl = do
    (r, t) ← get_hash_mut t ttl key
    elim r [
      | inl e ↦ ok (inl e, t)
      | inr (idx, h) ↦ do
        t ← put_hash t idx (insert_all field_values 0 h).1
        ok (inr (insert_all field_values 0 h).0, t)
    ]

  -- `get_mut`
  unfoldable pub get_mut : Tree m → List ℕ → Run (Option (ℕ × Value Z) × Tree m)
  get_mut t key = do
    (found, t) ← get_idx t key
    elim found [
      | none ↦ ok (none, t)
      | some idx ↦ do
        node ← get_node t idx
        ok (elim (get_value node t.now) [ none ↦ none | some v ↦ some (idx, v) ], t)
    ]

  -- A command that reads a hash, with its reply where there is none.
  unfoldable pub read_hash {ℓ} :
      {A : Type ℓ} → Tree m → List ℕ → A → (Hash → A) → Run ((RedisType ⊎ A) × Tree m)
  unfolding get_mut
  read_hash t key default f = do
    (found, t) ← get_mut t key
    elim found [
      | none ↦ ok (inr default, t)
      | some (idx, v) ↦ elim (as_hash v) [
        | inl other ↦ ok (inl other, t)
        | inr h ↦ ok (inr (f h), t)
      ]
    ]

  unfoldable pub cmd_hget : Tree m → List ℕ → List ℕ → Run ((RedisType ⊎ Option (List ℕ)) × Tree m)
  cmd_hget t key field = read_hash t key none (Hash.get field)

  unfoldable pub cmd_hgetall : Tree m → List ℕ → Run ((RedisType ⊎ List (List ℕ)) × Tree m)
  cmd_hgetall t key = read_hash t key [] Hash.all

  unfoldable pub cmd_hexists : Tree m → List ℕ → List ℕ → Run ((RedisType ⊎ Bool) × Tree m)
  cmd_hexists t key field = read_hash t key false (Hash.contains_key field)

  unfoldable pub cmd_hlen : Tree m → List ℕ → Run ((RedisType ⊎ ℕ) × Tree m)
  cmd_hlen t key = read_hash t key 0 (λ h. Hash.len h % 2 ^ 32)

  unfoldable pub cmd_hkeys : Tree m → List ℕ → Run ((RedisType ⊎ List (List ℕ)) × Tree m)
  cmd_hkeys t key = read_hash t key [] Hash.keys

  unfoldable pub cmd_hvals : Tree m → List ℕ → Run ((RedisType ⊎ List (List ℕ)) × Tree m)
  cmd_hvals t key = read_hash t key [] Hash.values

  unfoldable pub cmd_hmget :
      Tree m → List ℕ → List (List ℕ) → Run ((RedisType ⊎ List (Option (List ℕ))) × Tree m)
  cmd_hmget t key fields =
      read_hash t key (replicate (length fields) none) (λ h. map (λ f. Hash.get f h) fields)

  -- The key goes with its last field.
  unfoldable pub cmd_hdel : Tree m → List ℕ → List (List ℕ) → Run ((RedisType ⊎ ℕ) × Tree m)
  unfolding get_mut
  cmd_hdel t key fields = do
    (found, t) ← get_mut t key
    elim found [
      | none ↦ ok (inr 0, t)
      | some (idx, v) ↦ elim (as_hash v) [
        | inl other ↦ ok (inl other, t)
        | inr h ↦
            let (deleted, h) = del_all fields 0 h in
            do
              t ← put_hash t idx h
              if Hash.is_empty h
                  then (do (old, t) ← del t key; ok (inr deleted, t))
                  else ok (inr deleted, t)
      ]
    ]

  unfoldable pub cmd_hincrby : Tree m → List ℕ → List ℕ → ℤ → Run ((TypeError ⊎ ℤ) × Tree m)
  cmd_hincrby t key field increment = do
    (r, t) ← get_hash_mut t none key
    elim r [
      | inl e ↦ ok (inl e, t)
      | inr (idx, h) ↦ elim (field_int (Hash.get field h)) [
        | none ↦ ok (inl not_a_int, t)
        | some current ↦ elim (checked_add current increment) [
          | none ↦ ok (inl not_a_int, t)
          | some sum ↦ do t ← put_hash t idx (Hash.insert field (numeral sum) h).1; ok (inr sum, t)
        ]
      ]
    ]
