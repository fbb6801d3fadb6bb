-- ===== src/Handlers/Connection/Buffer.antt =====
-- The loop of `handle_buffer` of radixox/src/bin/resp.rs over the bytes that were read, which the crate
-- redis_protocol decodes. `Laws` says what it does with commands that come in together.
pub mod Laws
use radixox.Common.{
  ℕ, zero, suc, Bool, true, false, List, [], ◌∷◌, ◌++◌, map, Option, none, some, Run, ok, panic,
  ◌>>=◌, codes,
}
use radixox.Command.{Bytes}
use radixox.Frame.{Frame, error}
use radixox.PubSub.{ConnState}
use radixox.Tree.{Crates, Tree}
use radixox.Value.{Value}
use radixox.ZSet.{ZSet}
use radixox.ZSet.Entries.{Floats}
use radixox.Handlers.Options.{upper}
use radixox.Handlers.Server.{Limits}
use radixox.Handlers.Connection.{Action, sends, says_goodbye, ignores, dispatch, frame_to_args}

-- The results of `decode_bytes_mut`: it needs more bytes, fails, with the error as it is printed, or
-- takes a frame off the front.
pub data Decoded : Type 0 where
  incomplete : Decoded
  broken : Bytes → Decoded
  decoded : Frame → Bytes → Decoded

-- How the loop ends, with the bytes that stay in the buffer: with `Ok`, as there is no whole frame or
-- a broken one, or with `Err`.
pub data Rest : Type 0 where
  waits fails leaves : Bytes → Rest

-- The state that the loop works on: the connection, the tree, and the registry and sockets.
pub record World (W R : Type 0) {V : Type 0} (m : Crates V) : Type 0 where
  pub conn : ConnState W
  pub tree : Tree m
  pub outer : R

-- `ERR_EMPTY_CMD`
abbrev pub empty_command : Frame
empty_command = error (codes "ERR empty command")

abbrev pub parse_error : Bytes → Frame
parse_error e = error (codes "ERR parse error: " ++ e)

-- `perform` does what an action says to the state of the connection, the tree, the registry and the
-- sockets, and tells whether that went well.
module _ {W R F : Type 0} {m : Crates (Value (ZSet F))} (decode : Bytes → Decoded)
    (perform : Action → World W R m → Run (Bool × World W R m)) (lossy : Bytes → Bytes)
    (fl : Floats F) (limits : Limits) where
  -- An error leaves the loop, and so does a QUIT.
  abbrev pub act : Action → World W R m → Run (Bool × World W R m)
  act ignores w = ok (true, w)
  act (says_goodbye f) w = do (fine, w) ← perform (sends f) w; ok (false, w)
  act a w = perform a w

  -- The lines of a round behind the decoder: `false` stands for a `?` that returns.
  unfoldable pub serve : Option (Bytes × List Bytes) → World W R m → Run (Bool × World W R m)
  serve none w = perform (sends empty_command) w
  serve (some (cmd, args)) w = do
    (a, t) ← dispatch lossy fl limits (map upper cmd) args w.conn w.tree
    act a (record w { tree = t })

  abbrev pub go_on :
      (Bytes → World W R m → Option (Run (Rest × World W R m)))
      → Bytes
      → Run (Bool × World W R m)
      → Option (Run (Rest × World W R m))
  go_on next rest panic = some panic
  go_on next rest (ok (true, w)) = next rest w
  go_on next rest (ok (false, w)) = some (ok (leaves rest, w))

  abbrev pub round :
      Bytes
      → (Bytes → World W R m → Option (Run (Rest × World W R m)))
      → World W R m
      → Decoded
      → Option (Run (Rest × World W R m))
  round buf next w incomplete = some (ok (waits buf, w))
  round buf next w (broken e) =
      some (do (fine, w) ← perform (sends (parse_error e)) w; ok (fails buf, w))
  round buf next w (decoded f rest) = go_on next rest (serve (frame_to_args f) w)

  -- A round takes at least a byte off the buffer: the fuel is a bound of its length.
  unfoldable pub handle_buffer : ℕ → Bytes → World W R m → Option (Run (Rest × World W R m))
  handle_buffer zero buf w = none
  handle_buffer (suc fuel) buf w = round buf (handle_buffer fuel) w (decode buf)
