-- ===== src/Value.antt =====
-- `Value` of oxidart/src/value.rs: what a key holds. A sorted set is of any type `Z`. A node has a tag
-- and a union for it; here both are the value, or none.
pub mod Laws
pub mod Counter
pub mod HashCommands
pub mod Borrowed
pub mod SetCommands
pub mod ZSetCommands
use radixox.Common.{
  ℕ, zero, suc, ◌-◌, Bool, true, false, ◌&&◌, ◌==◌, if◌then◌else◌, List, [], ◌∷◌, Option, none,
  some, ◌⊎◌, inl, inr, is_digit, value, numeral, ℤ, pos, neg, checked, checked_add,
}
use radixox.Hash.{Hash}

pub data RedisType : Type 0 where
  none_type string_type hash_type list_type set_type zset_type : RedisType

pub data IntError : Type 0 where
  not_an_integer overflow : IntError

-- A `VecDeque` and a `BTreeSet` are lists.
pub data Value (Z : Type 0) : Type 0 where
  string : List ℕ → Value Z
  int : ℤ → Value Z
  hash : Hash → Value Z
  list set : List (List ℕ) → Value Z
  zset : Z → Value Z

abbrev pub all_digits : List ℕ → Bool
all_digits [] = true
all_digits (b ∷ bs) = is_digit b && all_digits bs

abbrev pub unsigned : List ℕ → Option ℕ
unsigned [] = none
unsigned (b ∷ bs) = if all_digits (b ∷ bs) then some (value 0 (b ∷ bs)) else none

abbrev pub signed : (ℕ → ℤ) → Option ℕ → Option ℤ
signed sign none = none
signed sign (some n) = checked (sign n)

-- `s.parse::<i64>()`: a sign may stand in front. Text that is not UTF-8 has a byte that is no digit.
unfoldable pub parse_i64 : List ℕ → Option ℤ
unfolding neg
parse_i64 [] = none
parse_i64 (b ∷ bs) =
    if b == b'-'
    then signed (λ n. neg (pos n)) (unsigned bs)
    else if b == b'+'
    then signed pos (unsigned bs)
    else signed pos (unsigned (b ∷ bs))

module _ {Z : Type 0} where
  abbrev pub redis_type : Value Z → RedisType
  redis_type (string b) = string_type
  redis_type (int n) = string_type
  redis_type (hash h) = hash_type
  redis_type (list l) = list_type
  redis_type (set s) = set_type
  redis_type (zset z) = zset_type

  unfoldable pub as_bytes : Value Z → Option (List ℕ)
  as_bytes (string b) = some b
  as_bytes (int n) = some (numeral n)
  as_bytes (hash h) = none
  as_bytes (list l) = none
  as_bytes (set s) = none
  as_bytes (zset z) = none

  unfoldable pub to_int : Value Z → IntError ⊎ ℤ
  to_int (string b) = elim (parse_i64 b) [ none ↦ inl not_an_integer | some n ↦ inr n ]
  to_int (int n) = inr n
  to_int (hash h) = inl not_an_integer
  to_int (list l) = inl not_an_integer
  to_int (set s) = inl not_an_integer
  to_int (zset z) = inl not_an_integer

  unfoldable pub as_hash : Value Z → RedisType ⊎ Hash
  as_hash (string b) = inl string_type
  as_hash (int n) = inl string_type
  as_hash (hash h) = inr h
  as_hash (list l) = inl list_type
  as_hash (set s) = inl set_type
  as_hash (zset z) = inl zset_type

  unfoldable pub as_set : Value Z → RedisType ⊎ List (List ℕ)
  as_set (string b) = inl string_type
  as_set (int n) = inl string_type
  as_set (hash h) = inl hash_type
  as_set (list l) = inl list_type
  as_set (set s) = inr s
  as_set (zset z) = inl zset_type

  unfoldable pub as_zset : Value Z → RedisType ⊎ Z
  as_zset (string b) = inl string_type
  as_zset (int n) = inl string_type
  as_zset (hash h) = inl hash_type
  as_zset (list l) = inl list_type
  as_zset (set s) = inl set_type
  as_zset (zset z) = inr z

  unfoldable pub as_list : Value Z → RedisType ⊎ List (List ℕ)
  as_list (string b) = inl string_type
  as_list (int n) = inl string_type
  as_list (hash h) = inl hash_type
  as_list (list l) = inr l
  as_list (set s) = inl set_type
  as_list (zset z) = inl zset_type

  -- The integer that the value has, as `NodeValMut::incr` reads it.
  abbrev pub current : Value Z → Option ℤ
  current (string b) = parse_i64 b
  current (int n) = some n
  current (hash h) = none
  current (list l) = none
  current (set s) = none
  current (zset z) = none

  -- `NodeValMut::incr`
  unfoldable pub incr : Value Z → ℤ → (IntError ⊎ ℤ) × Value Z
  incr v delta = elim (current v) [
    | none ↦ (inl not_an_integer, v)
    | some n ↦ elim (checked_add n delta) [ none ↦ (inl overflow, v) | some m ↦ (inr m, int m) ]
  ]
