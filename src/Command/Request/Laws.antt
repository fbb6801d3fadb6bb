-- ===== src/Command/Request/Laws.antt =====
-- The parser reads back what a client sends.
use radixox.Common.{
  ℕ, suc, ◌+◌, ◌-◌, ◌*◌, ◌%◌, ◌^◌, ◌≤◌, ◌<◌, ◌≡◌, refl, true, false, ltb, ◌==◌, List, [], ◌∷◌, ◌++◌,
  Option, some, ok, panic, arith, length, length-append, take-append_self, drop-append, Digits,
  value, acc-le-value, decimal, Digits-decimal, value-decimal,
}
use radixox.Command.{Bytes}
use radixox.Command.Dispatch.{dispatch}
use radixox.Command.Request.{
  uint_loop, parse_uint, crlf_at, expect_crlf, slice, bulk, bulks, from_slice,
}

-- An argument as a client sends it, in front of `rest`: its length, and its bytes.
unfoldable pub sent : Bytes → List ℕ → List ℕ
sent s rest = b'$' ∷ (decimal (length s) ++ 13 ∷ 10 ∷ (s ++ 13 ∷ 10 ∷ rest))

unfoldable pub sent_all : List Bytes → List ℕ → List ℕ
unfolding sent
sent_all [] rest = rest
sent_all (s ∷ args) rest = sent s (sent_all args rest)

-- A request, in front of further bytes.
unfoldable pub request : List Bytes → List ℕ → List ℕ
unfolding sent_all
request args rest = b'*' ∷ (decimal (length args) ++ 13 ∷ 10 ∷ sent_all args rest)

-- The loop stops before the carriage return, with the numeral's value.
pub uint_loop-value :
    (n at : ℕ) (ds rest : List ℕ)
    → Digits ds
    → value n ds < 2 ^ 64
    → uint_loop n at (ds ++ 13 ∷ rest)
      ≡ some (value n ds, record { at = at + length ds; rest = 13 ∷ rest })
unfolding uint_loop
uint_loop-value n at [] rest d h = let e : at + 0 ≡ at = omega arith in rw e refl
uint_loop-value n at (b ∷ ds) rest (digit, d) h =
    let more = uint_loop-value (n * 10 + (b - b'0')) (at + 1) ds rest d h in
    let small : (n * 10 + (b - b'0')) % 2 ^ 64 ≡ n * 10 + (b - b'0') =
      omega (arith, acc-le-value (n * 10 + (b - b'0')) ds) in
    let e : at + 1 + length ds ≡ at + suc (length ds) = omega arith in
    let other : (b == 13) ≡ false = ground arith in rw (other, digit, small, more, e) refl

slice-append :
    (size at : ℕ) (s rest : List ℕ)
    → at + length (s ++ rest) ≤ size
    → size < 2 ^ 64
    → slice size (record { at = at; rest = s ++ rest }) (length s)
      ≡ ok (some (s, record { at = at + length s; rest = rest }))
unfolding slice
slice-append size at s rest fits small =
    let total = length-append s rest in
    let end : (at + length s) % 2 ^ 64 ≡ at + length s = omega arith in
    let inside : ltb size (at + length s) ≡ false = ground (arith, total, fits) in
    let ordered : ltb (at + length s) at ≡ false = ground arith in
    let len : at + length s - at ≡ length s = omega arith in
    rw (end, inside, ordered, len, take-append_self s rest, drop-append s rest) refl

pub length-sent :
    (s rest : List ℕ)
    → length (sent s rest) ≡ 5 + length (decimal (length s)) + length s + length rest
unfolding sent
length-sent s rest = omega (
  arith,
  length-append (decimal (length s)) (13 ∷ 10 ∷ (s ++ 13 ∷ 10 ∷ rest)),
  length-append s (13 ∷ 10 ∷ rest),
)

-- One argument is read back, and the cursor stands behind it.
bulk-sent :
    (size at : ℕ) (s rest : List ℕ)
    → at + length (sent s rest) ≤ size
    → size < 2 ^ 64
    → (end : ℕ) × (end + length rest ≡ at + length (sent s rest))
      × (bulk size (record { at = at; rest = sent s rest })
          ≡ ok (some (s, record { at = end; rest = rest })))
unfolding bulk sent parse_uint expect_crlf crlf_at
bulk-sent size at s rest fits small =
    let ds = decimal (length s) in
    let long = length-sent s rest in
    let here = at + 1 + length ds + 2 in
    let number : value 0 ds ≡ length s = value-decimal (length s) in
    let read =
      uint_loop-value 0 (at + 1) ds (10 ∷ (s ++ 13 ∷ 10 ∷ rest)) (Digits-decimal (length s))
        (omega arith) in
    let cut =
      slice-append size here s (13 ∷ 10 ∷ rest) (omega (arith, length-append s (13 ∷ 10 ∷ rest)))
        small in
    (here + length s + 2, omega arith, rw (read, number, cut) refl)

bulks-sent_all :
    (size at : ℕ) (args : List Bytes) (rest : List ℕ)
    → at + length (sent_all args rest) ≤ size
    → size < 2 ^ 64
    → bulks (length args) size (record { at = at; rest = sent_all args rest }) ≡ ok (some args)
unfolding bulks sent_all
bulks-sent_all size at [] rest fits small = refl
bulks-sent_all size at (s ∷ args) rest fits small =
    let (end, place, one) = bulk-sent size at s (sent_all args rest) fits small in
    rw (one, bulks-sent_all size end args rest (omega arith) small) refl

pub length-args :
    (args : List Bytes) (rest : List ℕ) → length args + length rest ≤ length (sent_all args rest)
unfolding sent_all
length-args [] rest = omega arith
length-args (s ∷ args) rest =
    omega (arith, length-args args rest, length-sent s (sent_all args rest))

module _ {F : Type 0} (arg_f64 : Bytes → Option F) where
  -- A request of one argument or more, and of fewer than 2 ^ 64 bytes with what follows it, is read
  -- without a panic as the command that its arguments give; what follows is not looked at.
  pub from_slice-request :
      (s : Bytes) (args : List Bytes) (rest : List ℕ)
      → length (request (s ∷ args) rest) < 2 ^ 64
      → from_slice arg_f64 (request (s ∷ args) rest) ≡ ok (dispatch arg_f64 (s ∷ args))
  unfolding from_slice request parse_uint expect_crlf crlf_at
  from_slice-request s args rest small =
      let all = s ∷ args in
      let ds = decimal (length all) in
      let size = length (request all rest) in
      let long = length-append ds (13 ∷ 10 ∷ sent_all all rest) in
      let number : value 0 ds ≡ length all = value-decimal (length all) in
      let count = length-args all rest in
      let read =
        uint_loop-value 0 1 ds (10 ∷ sent_all all rest) (Digits-decimal (length all))
          (omega arith) in
      let body = bulks-sent_all size (1 + length ds + 2) all rest (omega arith) small in
      let several : (length all == 0) ≡ false = ground arith in
      rw (read, number, several, body) refl

  -- A length of 2 ^ 64 - k, where k is at most the number of bytes read so far, wraps to an end before
  -- the start: no check catches it, and the slice panics.
  pub from_slice-wraps :
      (ds rest : List ℕ) (k : ℕ)
      → Digits ds
      → value 0 ds + k ≡ 2 ^ 64
      → 0 < k
      → k ≤ 7 + length ds
      → length rest + length ds + 9 < 2 ^ 64
      → from_slice arg_f64 (b'*' ∷ b'1' ∷ 13 ∷ 10 ∷ b'$' ∷ (ds ++ 13 ∷ 10 ∷ rest)) ≡ panic
  unfolding from_slice parse_uint uint_loop bulks bulk slice expect_crlf crlf_at
  from_slice-wraps ds rest k d total positive behind small =
      let read = uint_loop-value 0 5 ds (10 ∷ rest) d (omega arith) in
      let long = length-append ds (13 ∷ 10 ∷ rest) in
      let end : (5 + length ds + 2 + value 0 ds) % 2 ^ 64 ≡ 7 + length ds - k = omega arith in
      let inside : ltb (length (b'*' ∷ b'1' ∷ 13 ∷ 10 ∷ b'$' ∷ (ds ++ 13 ∷ 10 ∷ rest)))
            (7 + length ds - k)
          ≡ false =
        ground (arith, long) in
      let before : ltb (7 + length ds - k) (5 + length ds + 2) ≡ true = ground arith in
      rw (read, end, inside, before) refl
