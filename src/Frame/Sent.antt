-- ===== src/Frame/Sent.antt =====
-- A client that encodes a command as an array of bulk strings is understood.
use radixox.Common.{
  suc, ◌^◌, ◌<◌, ◌≡◌, refl, ap, List, [], ◌∷◌, append_assoc, Option, ok, ◌>>=◌, arith, length,
  length-append, decimal,
}
use radixox.Command.{Bytes}
use radixox.Command.Dispatch.{dispatch}
use radixox.Command.Request.{from_slice}
use radixox.Command.Request.Laws.{sent_all, request, from_slice-request, length-sent, length-args}
use radixox.Frame.{Frames, bulk_string, array, no_frames, ◌▷◌, count, extend_encode}
use radixox.Frame.Print.{printed, printed_all, IsSized, AllSized, extend_encode-printed}

abbrev pub bulk_strings : List Bytes → Frames
bulk_strings [] = no_frames
bulk_strings (s ∷ args) = bulk_string s ▷ bulk_strings args

count-bulk_strings : (args : List Bytes) → count (bulk_strings args) ≡ length args
count-bulk_strings [] = refl
count-bulk_strings (s ∷ args) = ap suc (count-bulk_strings args)

printed_all-sent : (args : List Bytes) → printed_all (bulk_strings args) ≡ sent_all args []
unfolding printed sent_all
printed_all-sent [] = refl
printed_all-sent (s ∷ args) = rw (printed_all-sent args) (simp append_assoc)

printed-request : (args : List Bytes) → printed (array (bulk_strings args)) ≡ request args []
unfolding printed request
printed-request args = rw (count-bulk_strings args, printed_all-sent args) refl

AllSized-bulk_strings :
    (args : List Bytes) → length (sent_all args []) < 2 ^ 64 → AllSized (bulk_strings args)
unfolding sent_all
AllSized-bulk_strings [] h = tt
AllSized-bulk_strings (s ∷ args) h =
    let long = length-sent s (sent_all args []) in
    (omega arith, AllSized-bulk_strings args (omega arith))

module _ {F : Type 0} (arg_f64 : Bytes → Option F) where
  -- The encoder writes an array of one bulk string or more, of fewer than 2 ^ 64 bytes together,
  -- without a panic, and the parser reads it as the command that the strings give.
  pub extend_encode-from_slice :
      (s : Bytes) (args : List Bytes)
      → length (request (s ∷ args) []) < 2 ^ 64
      → (extend_encode [] (array (bulk_strings (s ∷ args))) >>= from_slice arg_f64)
        ≡ ok (dispatch arg_f64 (s ∷ args))
  unfolding request
  extend_encode-from_slice s args small =
      let all = s ∷ args in
      let long = length-append (decimal (length all)) (13 ∷ 10 ∷ sent_all all []) in
      let number : count (bulk_strings all) < 2 ^ 64 =
        omega (arith, count-bulk_strings all, length-args all []) in
      let sized : IsSized (array (bulk_strings all)) =
        (number, AllSized-bulk_strings all (omega arith)) in
      rw (extend_encode-printed [] (array (bulk_strings all)) sized, printed-request all)
        (from_slice-request arg_f64 s args [] small)
