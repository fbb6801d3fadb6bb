-- ===== src/Common/Decimal.antt =====
-- Decimal numerals as bytes: `is_ascii_digit`, the value of a numeral, and `to_string` of a number.
use Prim.Native.Nat.{ℕ, zero, suc, ◌+◌, ◌-◌, ◌*◌, ◌/◌, ◌%◌, ◌≤◌, ◌<◌}
use mathlib.Core.Path.{◌≡◌, refl, ap, ◌∙◌}
use mathlib.Core.Logic.{inl, inr}
use mathlib.Core.Bool.{Bool, true, ◌&&◌}
use mathlib.Core.List.{List, [], ◌∷◌}
use native.Mathlib.Omega.{arith}
use radixox.Common.Tests.{ltb, leb, if◌then◌else◌, Bool-cases}
use radixox.Common.Lists.{length}

abbrev pub is_digit : ℕ → Bool
is_digit b = leb b'0' b && leb b b'9'

abbrev pub Digits : List ℕ → Type 0
Digits [] = Unit
Digits (b ∷ bs) = (is_digit b ≡ true) × Digits bs

-- The value of the numeral, behind digits of the value `acc`.
abbrev pub value : ℕ → List ℕ → ℕ
value acc [] = acc
value acc (b ∷ bs) = value (acc * 10 + (b - b'0')) bs

-- The digits of `n` in front of `rest`, with one more unit of fuel than there are digits.
unfoldable pub digits : ℕ → ℕ → List ℕ → List ℕ
digits zero n rest = rest
digits (suc fuel) n rest =
    let more = digits fuel (n / 10) ((b'0' + n % 10) ∷ rest) in
    if ltb n 10 then (b'0' + n) ∷ rest else more

unfoldable pub decimal : ℕ → List ℕ
unfolding digits
decimal n = digits (suc n) n []

Digits-digits : (fuel n : ℕ) (rest : List ℕ) → Digits rest → Digits (digits fuel n rest)
unfolding digits
Digits-digits zero n rest d = d
Digits-digits (suc fuel) n rest d = elim (Bool-cases (ltb n 10)) [
  | inl small ↦ ground (arith, small)
  | inr large ↦
      let digit : is_digit (b'0' + n % 10) ≡ true = ground arith in
      ground (arith, large, Digits-digits fuel (n / 10) ((b'0' + n % 10) ∷ rest) (digit, d))
]

pub Digits-decimal : (n : ℕ) → Digits (decimal n)
unfolding decimal
Digits-decimal n = Digits-digits (suc n) n [] tt

value-digits : (fuel n : ℕ) (rest : List ℕ) → n < fuel → value 0 (digits fuel n rest) ≡ value n rest
unfolding digits
value-digits zero n rest h = absurd (omega arith)
value-digits (suc fuel) n rest h = elim (Bool-cases (ltb n 10)) [
  | inl small ↦
      let e : 0 * 10 + (b'0' + n - b'0') ≡ n = omega arith in
      rw small (ap (λ (z : ℕ). value z rest) e)
  | inr large ↦
      let e : n / 10 * 10 + (b'0' + n % 10 - b'0') ≡ n = omega arith in
      let h' : n / 10 < fuel = ground (arith, large, h) in
      rw large (value-digits fuel (n / 10) ((b'0' + n % 10) ∷ rest) h' ∙ (rw e refl))
]

-- Printing a number and reading it back gives the number.
pub value-decimal : (n : ℕ) → value 0 (decimal n) ≡ n
unfolding decimal
value-decimal n = value-digits (suc n) n [] (omega arith)

pub acc-le-value : (acc : ℕ) (bs : List ℕ) → acc ≤ value acc bs
acc-le-value acc [] = omega arith
acc-le-value acc (b ∷ bs) = omega (arith, acc-le-value (acc * 10 + (b - b'0')) bs)

some_digit : (fuel n : ℕ) (rest : List ℕ) → n < fuel → 0 < length (digits fuel n rest)
unfolding digits
some_digit zero n rest h = absurd (omega arith)
some_digit (suc fuel) n rest h = elim (Bool-cases (ltb n 10)) [
  | inl small ↦ rw small (omega arith)
  | inr large ↦
      let h' : n / 10 < fuel = ground (arith, large, h) in
      rw large (some_digit fuel (n / 10) ((b'0' + n % 10) ∷ rest) h')
]

pub length-decimal_pos : (n : ℕ) → 0 < length (decimal n)
unfolding decimal
length-decimal_pos n = some_digit (suc n) n [] (omega arith)
