-- ===== src/Command/Args/Laws.antt =====
-- What the number parsers accept, and the value they read.
use radixox.Common.{
  ℕ, suc, ◌+◌, ◌-◌, ◌*◌, ◌^◌, ◌≤◌, ◌<◌, ◌≡◌, refl, sym, ap, ◌∙◌, inl, inr, Bool, true, false, ltb,
  ◌==◌, ◌↔◌, if◌then◌else◌, Bool-cases, List, [], ◌∷◌, none, some, arith, length, is_digit, Digits,
  value, acc-le-value, decimal, Digits-decimal, value-decimal, length-decimal_pos, ℤ, pos, negsuc,
  neg, numeral, pos_part, neg_part, Option-cases, ◌&&◌,
}
use radixox.Command.Args.{digits_loop, unsigned, ◌>>=◌, arg_u64, arg_i64}

digits_loop-value :
    (bound n : ℕ) (ds : List ℕ)
    → Digits ds
    → value n ds < bound
    → digits_loop bound n ds ≡ some (value n ds)
unfolding digits_loop
digits_loop-value bound n [] d h = refl
digits_loop-value bound n (b ∷ ds) (digit, d) h =
    let low = acc-le-value (n * 10 + (b - b'0')) ds in
    let times : ltb (n * 10) bound ≡ true = ground (arith, low, h) in
    let plus : ltb (n * 10 + (b - b'0')) bound ≡ true = ground (arith, low, h) in
    let more = digits_loop-value bound (n * 10 + (b - b'0')) ds d h in
    rw (digit, times, plus, more) refl

-- What the loop reads are digits, and their value lies below the bound.
digits_loop-inv :
    (bound n m : ℕ) (ds : List ℕ)
    → n < bound
    → digits_loop bound n ds ≡ some m
    → Digits ds × (m ≡ value n ds) × (m < bound)
unfolding digits_loop
digits_loop-inv bound n m [] h e = (tt, ground (arith, e), ground (arith, e, h))
digits_loop-inv bound n m (b ∷ ds) h e =
    let ih = digits_loop-inv bound (n * 10 + (b - b'0')) m ds in
    elim (Bool-cases (is_digit b)) [
      | inr other ↦ absurd (ground (arith, e, other))
      | inl digit ↦ elim (Bool-cases (ltb (n * 10) bound)) [
        | inr other ↦ absurd (ground (arith, e, digit, other))
        | inl times ↦ elim (Bool-cases (ltb (n * 10 + (b - b'0')) bound)) [
          | inr other ↦ absurd (ground (arith, e, digit, times, other))
          | inl plus ↦
              let (more, v, low) =
                ih (ground (arith, plus)) (ground (arith, e, digit, times, plus)) in
              ((digit, more), v, low)
        ]
      ]
    ]

digits_loop-overflow :
    (bound n : ℕ) (ds : List ℕ) → n < bound → bound ≤ value n ds → digits_loop bound n ds ≡ none
digits_loop-overflow bound n ds h big = elim (Option-cases (digits_loop bound n ds)) [
  | inl e ↦ e
  | inr (m, e) ↦ let (_, v, low) = digits_loop-inv bound n m ds h e in absurd (omega arith)
]

-- `arg_u64` reads a string as `n` exactly when it is not empty, all its bytes are digits, and the
-- value of the numeral is `n` and below 2 ^ 64.
pub arg_u64-decimal_iff :
    (s : List ℕ) (n : ℕ)
    → (arg_u64 s ≡ some n) ↔ ((0 < length s) × Digits s × (n ≡ value 0 s) × (n < 2 ^ 64))
unfolding arg_u64
arg_u64-decimal_iff [] n = (
  λ e. absurd (ground (arith, e)),
  λ (h : (0 < 0) × Digits [] × (n ≡ 0) × (n < 2 ^ 64)). absurd (omega (arith, h.0)),
)
arg_u64-decimal_iff (b ∷ s) n = (
  λ e.
      let (d, v, h) = digits_loop-inv (2 ^ 64) 0 n (b ∷ s) (omega arith) e in
      (omega arith, d, v, h),
  λ (_, d, v, h). digits_loop-value (2 ^ 64) 0 (b ∷ s) d (omega arith) ∙ ap some (sym v),
)

-- Both the integer and its opposite are an `i64`.
abbrev pub symmetric : ℤ → Bool
symmetric a = ltb (pos_part a) (2 ^ 63) && ltb (neg_part a) (2 ^ 63)

unsigned-value :
    (ds : List ℕ)
    → Digits ds
    → 0 < length ds
    → unsigned ds ≡ (if ltb (value 0 ds) (2 ^ 63) then some (value 0 ds) else none)
unfolding unsigned
unsigned-value [] d h = absurd (omega (arith, h))
unsigned-value (b ∷ ds) d h = elim (Bool-cases (ltb (value 0 (b ∷ ds)) (2 ^ 63))) [
  | inl low ↦ rw low (digits_loop-value (2 ^ 63) 0 (b ∷ ds) d (ground (arith, low)))
  | inr high ↦
      rw high (digits_loop-overflow (2 ^ 63) 0 (b ∷ ds) (omega arith) (ground (arith, high)))
]

unsigned-decimal : (n : ℕ) → unsigned (decimal n) ≡ (if ltb n (2 ^ 63) then some n else none)
unsigned-decimal n =
    unsigned-value (decimal n) (Digits-decimal n) (length-decimal_pos n) ∙ rw (value-decimal n) refl

-- Without a sign, the digits alone count.
arg_i64-unsigned :
    (ds : List ℕ) → Digits ds → 0 < length ds → arg_i64 ds ≡ (unsigned ds >>= λ n. some (pos n))
unfolding arg_i64
arg_i64-unsigned [] d h = absurd (omega (arith, h))
arg_i64-unsigned (b ∷ ds) (digit, d) h =
    let other : (b == b'-') ≡ false = ground arith in rw other refl

-- `arg_i64` reads the numeral of every integer whose opposite is an `i64` too, and no other: not that
-- of `i64::MIN`.
pub arg_i64-numeral : (a : ℤ) → arg_i64 (numeral a) ≡ (if symmetric a then some a else none)
unfolding arg_i64 numeral neg
arg_i64-numeral (pos n) =
    arg_i64-unsigned (decimal n) (Digits-decimal n) (length-decimal_pos n)
    ∙ rw (unsigned-decimal n) (ground arith)
arg_i64-numeral (negsuc n) = rw (unsigned-decimal (suc n)) (ground arith)
