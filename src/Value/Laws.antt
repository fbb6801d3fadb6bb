-- ===== src/Value/Laws.antt =====
-- Integers as text, and as values.
use radixox.Common.{
  ℕ, suc, ◌<◌, ◌≡◌, refl, ap, ◌∙◌, ◌⊎◌, inl, inr, true, false, ◌==◌, if◌then◌else◌, List, [], ◌∷◌,
  some, Option-cases, Bool-cases, arith, length, Digits, value, decimal, Digits-decimal,
  value-decimal, length-decimal_pos, numeral, ℤ, pos, negsuc, neg, in_i64, checked, checked_add,
  ◌+ℤ◌,
}
use radixox.Value.{
  Value, IntError, overflow, string, int, hash, list, set, zset, all_digits, unsigned, signed,
  current, parse_i64, to_int, incr,
}

all_digits-Digits : (ds : List ℕ) → Digits ds → all_digits ds ≡ true
all_digits-Digits [] d = refl
all_digits-Digits (b ∷ ds) (digit, d) = rw (digit, all_digits-Digits ds d) refl

pub unsigned-Digits : (ds : List ℕ) → Digits ds → 0 < length ds → unsigned ds ≡ some (value 0 ds)
unsigned-Digits [] d h = absurd (omega (arith, h))
unsigned-Digits (b ∷ ds) d h = rw (all_digits-Digits (b ∷ ds) d) refl

unsigned-decimal : (n : ℕ) → unsigned (decimal n) ≡ some n
unsigned-decimal n =
    unsigned-Digits (decimal n) (Digits-decimal n) (length-decimal_pos n)
    ∙ ap some (value-decimal n)

parse_i64-Digits :
    (ds : List ℕ) (n : ℕ) → Digits ds → unsigned ds ≡ some n → parse_i64 ds ≡ checked (pos n)
unfolding parse_i64
parse_i64-Digits [] n d h = absurd (ground (arith, h))
parse_i64-Digits (b ∷ ds) n (digit, d) h =
    let minus : (b == b'-') ≡ false = ground (arith, digit) in
    let plus : (b == b'+') ≡ false = ground (arith, digit) in rw (minus, plus) (ap (signed pos) h)

-- Every integer of 64 bits is read back from its numeral.
pub parse_i64-numeral : (a : ℤ) → in_i64 a ≡ true → parse_i64 (numeral a) ≡ some a
unfolding parse_i64 numeral neg
parse_i64-numeral (pos n) h =
    parse_i64-Digits (decimal n) n (Digits-decimal n) (unsigned-decimal n) ∙ ground (arith, h)
parse_i64-numeral (negsuc n) h = rw (unsigned-decimal (suc n)) (ground (arith, h))

module _ {Z : Type 0} where
  -- The reply and the new value of an increment by `delta`, of a value that reads as the integer `a`.
  abbrev pub counted : Value Z → ℤ → ℤ → (IntError ⊎ ℤ) × Value Z
  counted v a delta =
      if in_i64 (a +ℤ delta) then (inr (a +ℤ delta), int (a +ℤ delta)) else (inl overflow, v)

  to_int-current : (v : Value Z) (a : ℤ) → to_int v ≡ inr a → current v ≡ some a
  unfolding to_int
  to_int-current (string b) a h = elim (Option-cases (parse_i64 b)) [
    | inl off ↦ absurd (ground (arith, off, h))
    | inr (n, on) ↦ ground (arith, on, h)
  ]
  to_int-current (int n) a h = ground (arith, h)
  to_int-current (hash x) a h = absurd (ground (arith, h))
  to_int-current (list x) a h = absurd (ground (arith, h))
  to_int-current (set x) a h = absurd (ground (arith, h))
  to_int-current (zset x) a h = absurd (ground (arith, h))

  -- A value that reads as an integer takes the sum with `delta`, as an integer, if that has 64 bits,
  -- and stays as it is otherwise.
  pub incr-counted :
      (v : Value Z) (a delta : ℤ) → to_int v ≡ inr a → incr v delta ≡ counted v a delta
  unfolding incr checked_add
  incr-counted v a delta h =
      let e = to_int-current v a h in
      elim (Bool-cases (in_i64 (a +ℤ delta))) [
        | inl fits ↦ ground (arith, e, fits)
        | inr over ↦ ground (arith, e, over)
      ]
