-- ===== src/Tests/Frames.antt =====
-- Frames that are encoded, and the laws of the encoder at concrete inputs.
use radixox.Common.{◌≡◌, refl, [], ◌∷◌, ok, arith, negsuc, ◌>>=◌}
use radixox.Command.Args.{arg_u64}
use radixox.Command.Dispatch.{dispatch}
use radixox.Command.Request.{from_slice}
use radixox.Frame.{Frame, bulk_string, integer, array, no_frames, ◌▷◌, write_loop, extend_encode}
use radixox.Frame.Print.{printed, extend_encode-printed}
use radixox.Frame.Sent.{bulk_strings, extend_encode-from_slice}
use radixox.Tests.Commands.{get_a, request_get}

-- ["a", -12]
abbrev reply : Frame
reply = array (bulk_string (97 ∷ []) ▷ integer (negsuc 11) ▷ no_frames)

-- "*2\r\n$1\r\na\r\n:-12\r\n"
extend_encode-reply :
    extend_encode [] reply
    ≡ ok (
        b'*' ∷ b'2' ∷ 13 ∷ 10 ∷ b'$' ∷ b'1' ∷ 13 ∷ 10 ∷ 97 ∷ 13 ∷ 10 ∷ b':' ∷ b'-' ∷ b'1' ∷ b'2'
        ∷ 13 ∷ 10 ∷ [])
unfolding extend_encode write_loop
extend_encode-reply = refl

extend_encode-printed_example : extend_encode (1 ∷ []) reply ≡ ok (1 ∷ printed reply)
extend_encode-printed_example =
    extend_encode-printed (1 ∷ []) reply (omega arith, (omega arith, (refl, tt)))

extend_encode-from_slice_example :
    (extend_encode [] (array (bulk_strings get_a)) >>= from_slice arg_u64)
    ≡ ok (dispatch arg_u64 get_a)
extend_encode-from_slice_example =
    extend_encode-from_slice arg_u64 (b'G' ∷ b'E' ∷ b'T' ∷ []) ((97 ∷ []) ∷ [])
      (rw request_get (omega arith))
