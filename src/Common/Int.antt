-- ===== src/Common/Int.antt =====
-- Signed integers over the native numbers, and the checked operations of `i64`.
use Prim.Native.Nat.{ℕ, suc, ◌+◌, ◌-◌, ◌^◌}
use mathlib.Core.Bool.{Bool}
use mathlib.Core.Option.{Option, none, some}
use mathlib.Core.List.{List, ◌∷◌}
use radixox.Common.Decimal.{decimal}
use radixox.Common.Tests.{ltb, leb, if◌then◌else◌}

-- `negsuc n` is -(n + 1).
pub data ℤ : Type 0 where
  pos : ℕ → ℤ
  negsuc : ℕ → ℤ

abbrev pub pos_part : ℤ → ℕ
pos_part (pos n) = n
pos_part (negsuc n) = 0

abbrev pub neg_part : ℤ → ℕ
neg_part (pos n) = 0
neg_part (negsuc n) = suc n

-- a - b, as an integer.
abbrev pub sub_ℕ : ℕ → ℕ → ℤ
sub_ℕ a b = if leb b a then pos (a - b) else negsuc (b - a - 1)

infixl 65 ◌+ℤ◌
unfoldable pub ◌+ℤ◌ : ℤ → ℤ → ℤ
a +ℤ b = sub_ℕ (pos_part a + pos_part b) (neg_part a + neg_part b)

unfoldable pub neg : ℤ → ℤ
neg a = sub_ℕ (neg_part a) (pos_part a)

-- `i64::MIN ..= i64::MAX`
abbrev pub in_i64 : ℤ → Bool
in_i64 (pos n) = ltb n (2 ^ 63)
in_i64 (negsuc n) = ltb n (2 ^ 63)

abbrev pub checked : ℤ → Option ℤ
checked a = if in_i64 a then some a else none

-- `a.checked_add(b)`
unfoldable pub checked_add : ℤ → ℤ → Option ℤ
unfolding ◌+ℤ◌
checked_add a b = checked (a +ℤ b)

-- `a.wrapping_neg()`: the least integer has no opposite, and is its own.
unfoldable pub wrapping_neg : ℤ → ℤ
unfolding neg
wrapping_neg a = if in_i64 (neg a) then neg a else a

-- An integer in decimal, with a minus sign before a negative one.
unfoldable pub numeral : ℤ → List ℕ
numeral (pos n) = decimal n
numeral (negsuc n) = b'-' ∷ decimal (suc n)
