-- ===== src/Node.antt =====
-- `Node` of oxidart/src/lib.rs. The compressed part of the key is the list of bytes that its
-- `CompactStr` holds (`CompactStr.Laws`), and tag and union together are the value that they stand
-- for, if any. A value is of any type `V`.
pub mod Compare
use radixox.Common.{
  ℕ, zero, suc, ◌+◌, min, Bool, true, false, not, ◌&&◌, ◌||◌, ltb, ◌==◌, if◌then◌else◌, List, [],
  ◌∷◌, Option, none, some, Run, ok, ◌>>=◌, no_index, length, succ?,
}
use radixox.Childs.{Childs}
use radixox.Childs
use radixox.Expiry

pub record Node (V : Type 0) : Type 0 where
  pub compression : List ℕ
  pub childs : Childs
  pub val : Option V
  pub exp_and_radix : ℕ
  pub overflow_idx : ℕ
  pub parent_idx : ℕ

-- `zip(..).position(|(a, b)| a != b)`
abbrev pub mismatch : List ℕ → List ℕ → Option ℕ
mismatch (a ∷ xs) (b ∷ ys) = if a == b then succ? (mismatch xs ys) else some 0
mismatch _ _ = none

abbrev pub get_common_len : List ℕ → List ℕ → ℕ
get_common_len compression key_rest = elim (mismatch compression key_rest) [
  | none ↦ min (length compression) (length key_rest)
  | some i ↦ i
]

pub data CompResult : Type 0 where
  path final : CompResult
  partial : ℕ → CompResult

unfoldable pub compare_compression_key : List ℕ → List ℕ → CompResult
compare_compression_key compression key_rest =
    let common_len = get_common_len compression key_rest in
    if length compression == length key_rest
    then (if common_len == length key_rest then final else partial common_len)
    else (if ltb (length key_rest) (length compression)
        then partial common_len
        else (if common_len == length compression then path else partial common_len))

module _ {V : Type 0} where
  unfoldable pub default : Node V
  unfolding Expiry.no_expiracy
  default = record {
    compression = [];
    childs = Childs.default;
    val = none;
    exp_and_radix = Expiry.no_expiracy 0;
    overflow_idx = no_index;
    parent_idx = no_index;
  }

  unfoldable pub is_expired : Node V → ℕ → Bool
  unfolding Expiry.is_expired
  is_expired n now = Expiry.is_expired n.exp_and_radix now

  abbrev pub has_val : Node V → Bool
  has_val n = elim n.val [ none ↦ false | some v ↦ true ]

  unfoldable pub clear_val : Node V → Node V
  clear_val n = record n { val = none }

  -- The value is stored before the assertion on the time can fail.
  unfoldable pub set_val : Node V → V → ℕ → Run (Node V)
  set_val n v exp = do
    e ← Expiry.set_exp n.exp_and_radix exp
    ok (record n { val = some v; exp_and_radix = e })

  unfoldable pub take_val : Node V → Option V × Node V
  take_val n = (n.val, record n { val = none })

  unfoldable pub get_value : Node V → ℕ → Option V
  get_value n now = if not (has_val n) || is_expired n now then none else n.val

  unfoldable pub get_overflow_idx : Node V → Option ℕ
  get_overflow_idx n = if n.overflow_idx == no_index then none else some n.overflow_idx

  unfoldable pub new_leaf : List ℕ → V → ℕ → ℕ → ℕ → Run (Node V)
  new_leaf compression v ttl parent_idx parent_radix = do
    e ← Expiry.new ttl parent_radix
    ok (record {
      compression = compression;
      childs = Childs.default;
      val = some v;
      exp_and_radix = e;
      overflow_idx = no_index;
      parent_idx = parent_idx;
    })

  unfoldable pub new_empty_leaf : List ℕ → ℕ → ℕ → Node V
  new_empty_leaf compression parent_idx parent_radix = record {
    compression = compression;
    childs = Childs.default;
    val = none;
    exp_and_radix = Expiry.no_expiracy parent_radix;
    overflow_idx = no_index;
    parent_idx = parent_idx;
  }

  unfoldable pub has_children : Node V → Bool
  has_children n =
      not (Childs.is_empty n.childs) || elim (get_overflow_idx n) [ none ↦ false | some _ ↦ true ]

  -- The only child, if it stands in the node and the node has no overflow table.
  unfoldable pub get_single_child : Node V → Option (ℕ × ℕ)
  get_single_child n = elim (Childs.old_get_single_child n.childs) [
    | none ↦ none
    | some c ↦ elim (get_overflow_idx n) [ none ↦ some c | some _ ↦ none ]
  ]
