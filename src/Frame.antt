-- ===== src/Frame.antt =====
-- `SharedFrame` of radixox-lib/src/shared_frame.rs: a frame of the protocol, and its encoder. The crate
-- redis_protocol's `digits_in_usize` and the length of its `NULL` are parameters; `SharedByte` and
-- `String` are lists of bytes.
pub mod Digits
pub mod Print
pub mod Sent
use radixox.Common.{
  ℕ, zero, suc, ◌+◌, ◌/◌, ◌%◌, Bool, true, false, ◌==◌, if◌then◌else◌, List, [], ◌∷◌, ◌++◌, Option,
  none, some, Run, ok, panic, ◌>>=◌, length, ℤ, pos, negsuc, neg_part, pos_part,
}

infixr 20 ◌▷◌
mutual
  pub data Frame : Type 0 where
    simple_string error bulk_string : List ℕ → Frame
    integer : ℤ → Frame
    array : Frames → Frame
    null : Frame

  -- `Vec<SharedFrame>`
  pub data Frames : Type 0 where
    no_frames : Frames
    ◌▷◌ : Frame → Frames → Frames

abbrev pub count : Frames → ℕ
count no_frames = 0
count (f ▷ fs) = suc (count fs)

-- The loop of `write_usize`, with the number of free cells in front of the digits `buf`. The buffer's
-- index cannot go below 0.
unfoldable pub write_loop : ℕ → ℕ → List ℕ → Run (List ℕ)
write_loop zero n buf = if n == 0 then ok buf else panic
write_loop (suc i) n buf =
    let more = write_loop i (n / 10) ((b'0' + n % 10) ∷ buf) in if n == 0 then ok buf else more

unfoldable pub write_usize : List ℕ → ℕ → Run (List ℕ)
write_usize dst n =
    if n == 0 then ok (dst ++ b'0' ∷ []) else (do buf ← write_loop 20 n []; ok (dst ++ buf))

unfoldable pub write_i64 : List ℕ → ℤ → Run (List ℕ)
unfolding write_usize
write_i64 dst (pos n) = write_usize dst n
write_i64 dst (negsuc n) = write_usize (dst ++ b'-' ∷ []) (suc n)

abbrev crlf : List ℕ
crlf = 13 ∷ 10 ∷ []

unfoldable mutual
  unfolding write_usize write_i64

  pub encode_frame : List ℕ → Frame → Run (List ℕ)
  encode_frame dst (simple_string s) = ok (((dst ++ b'+' ∷ []) ++ s) ++ crlf)
  encode_frame dst (error s) = ok (((dst ++ b'-' ∷ []) ++ s) ++ crlf)
  encode_frame dst (integer i) = do dst ← write_i64 (dst ++ b':' ∷ []) i; ok (dst ++ crlf)
  encode_frame dst (bulk_string b) = do
    dst ← write_usize (dst ++ b'$' ∷ []) (length b)
    ok (((dst ++ crlf) ++ b) ++ crlf)
  encode_frame dst (array frames) = do
    dst ← write_usize (dst ++ b'*' ∷ []) (count frames)
    encode_frames (dst ++ crlf) frames
  encode_frame dst null = ok (dst ++ b'$' ∷ b'-' ∷ b'1' ∷ 13 ∷ 10 ∷ [])

  pub encode_frames : List ℕ → Frames → Run (List ℕ)
  encode_frames dst no_frames = ok dst
  encode_frames dst (f ▷ fs) = do dst ← encode_frame dst f; encode_frames dst fs

-- Reserving space changes nothing else.
unfoldable pub extend_encode : List ℕ → Frame → Run (List ℕ)
unfolding encode_frame
extend_encode dst frame = encode_frame dst frame

module _ (digits_in_usize : ℕ → ℕ) where
  abbrev pub bulkstring_encode_len : List ℕ → ℕ
  bulkstring_encode_len b = 1 + digits_in_usize (length b) + 2 + length b + 2

  abbrev pub line_encode_len : List ℕ → ℕ
  line_encode_len s = 1 + length s + 2

  abbrev pub integer_encode_len : ℤ → Bool → ℕ
  integer_encode_len i int_as_bulkstring =
      let prefix : ℕ = elim i [ pos n ↦ 0 | negsuc n ↦ 1 ] in
      let digits = digits_in_usize (pos_part i + neg_part i) in
      if int_as_bulkstring
      then 1 + digits_in_usize (digits + prefix) + 2 + prefix + digits + 2
      else 1 + digits + 2 + prefix

  module _ (null_len : ℕ) where
    unfoldable mutual
      pub encode_len : Frame → Bool → ℕ
      encode_len (simple_string s) int_as_bulkstring = line_encode_len s
      encode_len (error s) int_as_bulkstring = line_encode_len s
      encode_len (integer i) int_as_bulkstring = integer_encode_len i int_as_bulkstring
      encode_len (bulk_string b) int_as_bulkstring = bulkstring_encode_len b
      encode_len (array frames) int_as_bulkstring =
          add_lens (1 + digits_in_usize (count frames) + 2) frames int_as_bulkstring
      encode_len null int_as_bulkstring = null_len

      pub add_lens : ℕ → Frames → Bool → ℕ
      add_lens m no_frames int_as_bulkstring = m
      add_lens m (f ▷ fs) int_as_bulkstring =
          add_lens (m + encode_len f int_as_bulkstring) fs int_as_bulkstring
