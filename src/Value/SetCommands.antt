-- ===== src/Value/SetCommands.antt =====
-- The commands on sets of oxidart/src/scommand.rs, on the tree. A `BTreeSet` is a list in ascending
-- order.
pub mod Laws
pub mod Pop
use radixox.Common.{
  ℕ, zero, suc, ◌+◌, ◌*◌, ◌-◌, ◌%◌, ◌^◌, Bool, true, false, ◌==◌, ltb, leb, if◌then◌else◌, List, [],
  ◌∷◌, Option, none, some, ◌⊎◌, inl, inr, Run, ok, panic, ◌>>=◌, is_digit, length,
}
use mathlib.Core.List.{reverse}
use radixox.Tree.{Crates, Tree}
use radixox.Tree.Remove.{del}
use radixox.Value.{Value, RedisType, as_set}
use radixox.Value.{set as set_value}
use radixox.Value.HashCommands.{TypeError, not_a_int}
use radixox.Value.Borrowed.{get_btree_set_mut, get_typed, put_value}
use radixox.BTree
use radixox.BTree.{pop_last, pop_loop}
use radixox.BTree.Bytes.{bytes_order}

-- `SPOPResult`
pub data SpopResult : Type 0 where
  single : Option (List ℕ) → SpopResult
  multiple : List (List ℕ) → SpopResult

-- The loop of `parse_u32`. A number of at most 2 ^ 32 times ten, and a digit, has 64 bits.
unfoldable pub parse_loop : ℕ → List ℕ → Option ℕ
parse_loop res [] = some res
parse_loop res (b ∷ bs) =
    let more = parse_loop (res * 10 + (b - b'0')) bs in
    if is_digit b then (if ltb (2 ^ 32 - 1) (res * 10 + (b - b'0')) then none else more) else none

unfoldable pub parse_u32 : List ℕ → Option ℕ
unfolding parse_loop
parse_u32 [] = none
parse_u32 (b ∷ bs) = parse_loop 0 (b ∷ bs)

-- The count of SPOP, which is positive; without one it is 1.
abbrev pub pop_count : Option (List ℕ) → Option ℕ
pop_count none = some 1
pop_count (some bytes) = elim (parse_u32 bytes) [
  | none ↦ none
  | some n ↦ if ltb 0 n then some n else none
]

-- What SPOP takes out of a set, and what it leaves.
unfoldable pub popped : ℕ → List (List ℕ) → SpopResult × List (List ℕ)
popped count s =
    if count == 1
    then (single (pop_last s).0, (pop_last s).1)
    else (multiple (reverse (pop_loop count [] s).0), (pop_loop count [] s).1)

-- The loops over the members, with the number of those that made a difference.
unfoldable pub add_all : List (List ℕ) → ℕ → List (List ℕ) → ℕ × List (List ℕ)
add_all [] count s = (count, s)
add_all (x ∷ xs) count s =
    let (new, s') = BTree.insert bytes_order x s in add_all xs (if new then count + 1 else count) s'

unfoldable pub remove_all : List (List ℕ) → ℕ → List (List ℕ) → ℕ × List (List ℕ)
remove_all [] count s = (count, s)
remove_all (x ∷ xs) count s =
    let (old, s') = BTree.remove bytes_order x s in
    remove_all xs (if old then count + 1 else count) s'

module _ {Z : Type 0} {m : Crates (Value Z)} where
  -- The lines behind the test of the count.
  abbrev pub spop_many : Tree m → List ℕ → Option ℕ → Run ((TypeError ⊎ SpopResult) × Tree m)
  spop_many t key none = ok (inl not_a_int, t)
  spop_many t key (some n) = do
    (r, t) ← get_btree_set_mut t none key
    elim r [
      | inl e ↦ ok (inl e, t)
      | inr (idx, s) ↦ do t ← put_value t idx (set_value (popped n s).1); ok (inr (popped n s).0, t)
    ]

  unfoldable pub cmd_spop :
      Tree m → List ℕ → Option (List ℕ) → Run ((TypeError ⊎ SpopResult) × Tree m)
  cmd_spop t key count = spop_many t key (pop_count count)

  unfoldable pub cmd_sadd :
      Tree m → List ℕ → List (List ℕ) → Option ℕ → Run ((TypeError ⊎ ℕ) × Tree m)
  cmd_sadd t key members ttl = do
    (r, t) ← get_btree_set_mut t ttl key
    elim r [
      | inl e ↦ ok (inl e, t)
      | inr (idx, s) ↦ do
        t ← put_value t idx (set_value (add_all members 0 s).1)
        ok (inr (add_all members 0 s).0, t)
    ]

  -- The key is deleted with its last member.
  abbrev pub clean_up {ℓ} : {A : Type ℓ} → Bool → List ℕ → A → Tree m → Run (A × Tree m)
  clean_up false key reply t = ok (reply, t)
  clean_up true key reply t = do (old, t) ← del t key; ok (reply, t)

  unfoldable pub cmd_srem : Tree m → List ℕ → List (List ℕ) → Run ((RedisType ⊎ ℕ) × Tree m)
  cmd_srem t key members = do
    (r, t) ← get_typed as_set t key
    elim r [
      | inl other ↦ ok (inl other, t)
      | inr none ↦ ok (inr 0, t)
      | inr (some (idx, s)) ↦
          let (count, s') = remove_all members 0 s in
          do t ← put_value t idx (set_value s'); clean_up (length s' == 0) key (inr count) t
    ]

  unfoldable pub cmd_smembers : Tree m → List ℕ → Run ((RedisType ⊎ List (List ℕ)) × Tree m)
  cmd_smembers t key = do
    (r, t) ← get_typed as_set t key
    elim r [
      | inl other ↦ ok (inl other, t)
      | inr none ↦ ok (inr [], t)
      | inr (some (idx, s)) ↦ clean_up (length s == 0) key (inr s) t
    ]

  unfoldable pub cmd_sismember : Tree m → List ℕ → List ℕ → Run ((RedisType ⊎ Bool) × Tree m)
  cmd_sismember t key member = do
    (r, t) ← get_typed as_set t key
    elim r [
      | inl other ↦ ok (inl other, t)
      | inr none ↦ ok (inr false, t)
      | inr (some (idx, s)) ↦ ok (inr (BTree.contains bytes_order member s), t)
    ]

  unfoldable pub cmd_scard : Tree m → List ℕ → Run ((RedisType ⊎ ℕ) × Tree m)
  cmd_scard t key = do
    (r, t) ← get_typed as_set t key
    elim r [
      | inl other ↦ ok (inl other, t)
      | inr none ↦ ok (inr 0, t)
      | inr (some (idx, s)) ↦ clean_up (length s == 0) key (inr (length s % 2 ^ 32)) t
    ]
