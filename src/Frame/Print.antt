-- ===== src/Frame/Print.antt =====
-- What the encoder writes, and how much of it there is.
use radixox.Common.{
  ℕ, suc, ◌+◌, ◌^◌, ◌<◌, ◌≡◌, refl, sym, ap, true, false, List, [], ◌∷◌, ◌++◌, append_assoc,
  append-nil, ok, arith, length, length-append, decimal, numeral, pos, negsuc, in_i64,
}
use radixox.Frame.{
  Frame, Frames, simple_string, error, integer, bulk_string, array, null, no_frames, ◌▷◌, count,
  encode_frame, encode_frames, extend_encode, encode_len, add_lens,
}
use radixox.Frame.Digits.{write_usize-decimal, write_i64-numeral}

-- A frame as bytes.
unfoldable mutual
  pub printed : Frame → List ℕ
  printed (simple_string s) = b'+' ∷ (s ++ 13 ∷ 10 ∷ [])
  printed (error s) = b'-' ∷ (s ++ 13 ∷ 10 ∷ [])
  printed (integer i) = b':' ∷ (numeral i ++ 13 ∷ 10 ∷ [])
  printed (bulk_string b) = b'$' ∷ (decimal (length b) ++ 13 ∷ 10 ∷ (b ++ 13 ∷ 10 ∷ []))
  printed (array fs) = b'*' ∷ (decimal (count fs) ++ 13 ∷ 10 ∷ printed_all fs)
  printed null = b'$' ∷ b'-' ∷ b'1' ∷ 13 ∷ 10 ∷ []

  pub printed_all : Frames → List ℕ
  printed_all no_frames = []
  printed_all (f ▷ fs) = printed f ++ printed_all fs

-- Lengths are below 2 ^ 64, and integers of 64 bits.
abbrev mutual
  pub IsSized : Frame → Type 0
  IsSized (simple_string s) = Unit
  IsSized (error s) = Unit
  IsSized (integer i) = in_i64 i ≡ true
  IsSized (bulk_string b) = length b < 2 ^ 64
  IsSized (array fs) = (count fs < 2 ^ 64) × AllSized fs
  IsSized null = Unit

  pub AllSized : Frames → Type 0
  AllSized no_frames = Unit
  AllSized (f ▷ fs) = IsSized f × AllSized fs

mutual
  unfolding encode_frame printed

  encode_frame-printed :
      (dst : List ℕ) (f : Frame) → IsSized f → encode_frame dst f ≡ ok (dst ++ printed f)
  encode_frame-printed dst (simple_string s) h = simp append_assoc
  encode_frame-printed dst (error s) h = simp append_assoc
  encode_frame-printed dst (integer i) h =
      rw (write_i64-numeral (dst ++ b':' ∷ []) i h) (simp append_assoc)
  encode_frame-printed dst (bulk_string b) h =
      rw (write_usize-decimal (dst ++ b'$' ∷ []) (length b) h) (simp append_assoc)
  encode_frame-printed dst (array fs) (h, hs) =
      let start = (dst ++ b'*' ∷ []) ++ decimal (count fs) in
      rw
        (
          write_usize-decimal (dst ++ b'*' ∷ []) (count fs) h,
          encode_frames-printed (start ++ 13 ∷ 10 ∷ []) fs hs,
        )
        (simp append_assoc)
  encode_frame-printed dst null h = refl

  encode_frames-printed :
      (dst : List ℕ) (fs : Frames) → AllSized fs → encode_frames dst fs ≡ ok (dst ++ printed_all fs)
  encode_frames-printed dst no_frames h = ap ok (sym (append-nil dst))
  encode_frames-printed dst (f ▷ fs) (h, hs) =
      rw (encode_frame-printed dst f h, encode_frames-printed (dst ++ printed f) fs hs)
        (simp append_assoc)

-- The encoder does not panic, and appends the printed form of a frame whose lengths are below 2 ^ 64
-- and whose integers have 64 bits.
pub extend_encode-printed :
    (dst : List ℕ) (f : Frame) → IsSized f → extend_encode dst f ≡ ok (dst ++ printed f)
unfolding extend_encode
extend_encode-printed = encode_frame-printed

module _ (digits_in_usize : ℕ → ℕ) (null_len : ℕ)
    (digits_in_usize-decimal : (n : ℕ) → digits_in_usize n ≡ length (decimal n))
    (null_len-five : null_len ≡ 5) where
  length-line : (s : List ℕ) → length (s ++ 13 ∷ 10 ∷ []) ≡ length s + 2
  length-line s = length-append s (13 ∷ 10 ∷ [])

  mutual
    unfolding encode_len printed numeral

    encode_len-printed :
        (f : Frame) → encode_len digits_in_usize null_len f false ≡ length (printed f)
    encode_len-printed (simple_string s) = omega (arith, length-line s)
    encode_len-printed (error s) = omega (arith, length-line s)
    encode_len-printed (integer (pos n)) =
        let e : n + 0 ≡ n = omega arith in
        omega (arith, ap digits_in_usize e, digits_in_usize-decimal n, length-line (decimal n))
    encode_len-printed (integer (negsuc n)) =
        let e : 0 + suc n ≡ suc n = omega arith in
        omega (
          arith,
          ap digits_in_usize e,
          digits_in_usize-decimal (suc n),
          length-line (decimal (suc n)),
        )
    encode_len-printed (bulk_string b) = omega (
      arith,
      digits_in_usize-decimal (length b),
      length-append (decimal (length b)) (13 ∷ 10 ∷ (b ++ 13 ∷ 10 ∷ [])),
      length-line b,
    )
    encode_len-printed (array fs) = omega (
      arith,
      digits_in_usize-decimal (count fs),
      length-append (decimal (count fs)) (13 ∷ 10 ∷ printed_all fs),
      add_lens-printed (1 + digits_in_usize (count fs) + 2) fs,
    )
    encode_len-printed null = null_len-five

    add_lens-printed :
        (m : ℕ) (fs : Frames)
        → add_lens digits_in_usize null_len m fs false ≡ m + length (printed_all fs)
    add_lens-printed m no_frames = omega arith
    add_lens-printed m (f ▷ fs) = omega (
      arith,
      encode_len-printed f,
      add_lens-printed (m + encode_len digits_in_usize null_len f false) fs,
      length-append (printed f) (printed_all fs),
    )

  -- The space that is reserved for a frame is the length of its printed form, if the crate counts the
  -- digits of a number and its null value has five bytes.
  pub encode_len-length :
      (f : Frame) → encode_len digits_in_usize null_len f false ≡ length (printed f)
  encode_len-length f = encode_len-printed f
