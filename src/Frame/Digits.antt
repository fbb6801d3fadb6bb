-- ===== src/Frame/Digits.antt =====
-- The numbers that the encoder writes are decimal numerals.
use radixox.Common.{
  ℕ, zero, suc, ◌+◌, ◌*◌, ◌/◌, ◌%◌, ◌^◌, ◌<◌, ◌≡◌, refl, sym, ap, ◌∙◌, inl, inr, true, false, ltb,
  ◌==◌, Bool-cases, List, [], ◌∷◌, ◌++◌, append_assoc, ok, arith, digits, decimal, ℤ, pos, negsuc,
  in_i64, numeral,
}
use radixox.Frame.{write_loop, write_usize, write_i64}

-- 10 ^ i
abbrev pub cells : ℕ → ℕ
cells zero = 1
cells (suc i) = 10 * cells i

-- The digits do not depend on the fuel, if there is enough.
digits-fuel :
    (f g n : ℕ) (rest : List ℕ) → n < f → n < cells g → 0 < n → digits f n rest ≡ digits g n rest
unfolding digits
digits-fuel zero g n rest h k p = absurd (omega arith)
digits-fuel (suc f) zero n rest h k p = absurd (omega arith)
digits-fuel (suc f) (suc g) n rest h k p = elim (Bool-cases (ltb n 10)) [
  | inl small ↦ rw small refl
  | inr large ↦ rw large (
      digits-fuel f g (n / 10) ((b'0' + n % 10) ∷ rest) (ground (arith, large, h))
        (ground (arith, large, k)) (ground (arith, large, p)))
]

-- Nothing is left to write.
write_loop-zero : (i : ℕ) (buf : List ℕ) → write_loop i 0 buf ≡ ok buf
unfolding write_loop
write_loop-zero zero buf = refl
write_loop-zero (suc i) buf = refl

write_loop-digits :
    (i n : ℕ) (buf : List ℕ) → 0 < n → n < cells i → write_loop i n buf ≡ ok (digits i n buf)
unfolding write_loop digits
write_loop-digits zero n buf p h = absurd (omega arith)
write_loop-digits (suc i) n buf p h =
    let some_left : (n == 0) ≡ false = ground arith in
    elim (Bool-cases (ltb n 10)) [
      | inl small ↦
          let last : n / 10 ≡ 0 = ground (arith, small) in
          let digit : n % 10 ≡ n = ground (arith, small) in
          rw (some_left, small, last, digit) (write_loop-zero i ((b'0' + n) ∷ buf))
      | inr large ↦
          let more =
            write_loop-digits i (n / 10) ((b'0' + n % 10) ∷ buf) (ground (arith, large))
              (ground (arith, large, h)) in
          rw (some_left, large, more) refl
    ]

-- A number of 64 bits fits into the buffer, and is written as its decimal numeral.
pub write_usize-decimal :
    (dst : List ℕ) (n : ℕ) → n < 2 ^ 64 → write_usize dst n ≡ ok (dst ++ decimal n)
unfolding write_usize decimal
write_usize-decimal dst zero h = refl
write_usize-decimal dst (suc n) h =
    let one = write_loop-digits 20 (suc n) [] (omega arith) (omega arith) in
    let same = digits-fuel (suc (suc n)) 20 (suc n) [] (omega arith) (omega arith) (omega arith) in
    let positive : (suc n == 0) ≡ false = ground arith in
    rw (positive, one) (ap (λ ds. ok (dst ++ ds)) (sym same))

pub write_i64-numeral :
    (dst : List ℕ) (i : ℤ) → in_i64 i ≡ true → write_i64 dst i ≡ ok (dst ++ numeral i)
unfolding write_i64 numeral
write_i64-numeral dst (pos n) h = write_usize-decimal dst n (ground (arith, h))
write_i64-numeral dst (negsuc n) h =
    write_usize-decimal (dst ++ b'-' ∷ []) (suc n) (ground (arith, h))
    ∙ ap ok (append_assoc dst (b'-' ∷ []) (decimal (suc n)))
