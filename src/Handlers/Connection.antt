-- ===== src/Handlers/Connection.antt =====
-- A connection of radixox/src/bin/resp.rs: from the bytes that were read to the commands, and from a
-- command to what is done. What a command does to the registry and the socket stays a value.
pub mod Laws
pub mod Buffer
use radixox.Common.{
  ℕ, zero, suc, Bool, true, false, List, [], ◌∷◌, ◌++◌, map, Option, none, some, Run, ok, panic,
  ◌>>=◌, codes,
}
use radixox.Command.{Bytes}
use radixox.Frame.{
  Frame, Frames, simple_string, error, bulk_string, integer, array, null, no_frames, ◌▷◌,
}
use radixox.PubSub.{ConnState, normal, pub_sub, blocking, nothing}
use radixox.Tree.{Crates, Tree}
use radixox.Value.{Value}
use radixox.ZSet.{ZSet}
use radixox.ZSet.Entries.{Floats}
use radixox.Handlers.{ok_frame}
use radixox.Handlers.Options.{upper}
use radixox.Handlers.Server.{Limits}
use radixox.Handlers.Table.{
  Handler, Answer, AsyncCommand, frame, pending, ping, quit, subscribe, unsubscribe, publish,
  get_handler, run_handler,
}

-- What `dispatch` does with the connection, behind what it did with the tree.
pub data Action : Type 0 where
  subscribes unsubscribes publishes : List Bytes → Action
  sends : Frame → Action
  -- the frame is sent, and the connection ends
  says_goodbye : Frame → Action
  awaits : AsyncCommand → List Bytes → Action
  ignores : Action

abbrev pub resp_pong : Frame
resp_pong = simple_string (codes "PONG")

abbrev pub only_pub_sub : Frame
only_pub_sub = error (codes "ERR only (P)SUBSCRIBE / (P)UNSUBSCRIBE / PING / QUIT allow")

-- `String::from_utf8_lossy` of the name is a parameter.
abbrev pub unknown : (Bytes → Bytes) → Bytes → Frame
unknown lossy cmd = error (codes "ERR unknown command '" ++ lossy cmd ++ codes "'")

abbrev pub answered : Answer → Action
answered (frame f) = sends f
answered (pending c args) = awaits c args

module _ {V : Type 0} {m : Crates V} where
  -- The commands of a connection that has subscriptions.
  abbrev pub when_subscribed : Option (Handler m) → List Bytes → Action
  when_subscribed (some subscribe) args = subscribes args
  when_subscribed (some unsubscribe) args = unsubscribes args
  when_subscribed (some ping) args = sends resp_pong
  when_subscribed (some quit) args = says_goodbye ok_frame
  when_subscribed h args = sends only_pub_sub

  abbrev pub run : Handler m → List Bytes → Tree m → Run (Action × Tree m)
  run h args t = do (a, t) ← run_handler h args t; ok (answered a, t)

  -- The commands of other connections: UNSUBSCRIBE is not among the first.
  abbrev pub when_normal : Frame → Option (Handler m) → List Bytes → Tree m → Run (Action × Tree m)
  when_normal other (some subscribe) args t = ok (subscribes args, t)
  when_normal other (some publish) args t = ok (publishes args, t)
  when_normal other (some ping) args t = ok (sends resp_pong, t)
  when_normal other (some quit) args t = ok (says_goodbye ok_frame, t)
  when_normal other (some h) args t = run h args t
  when_normal other none args t = ok (sends other, t)

module _ {F : Type 0} (lossy : Bytes → Bytes) (fl : Floats F) (limits : Limits) where
  unfoldable pub dispatch :
      {W : Type 0} {m : Crates (Value (ZSet F))}
      → Bytes
      → List Bytes
      → ConnState W
      → Tree m
      → Run (Action × Tree m)
  dispatch {m} cmd args (pub_sub id) t =
      ok (when_subscribed (get_handler fl limits {m = m} cmd) args, t)
  dispatch cmd args (normal write buf) t =
      when_normal (unknown lossy cmd) (get_handler fl limits cmd) args t
  dispatch cmd args blocking t = ok (ignores, t)
  dispatch cmd args nothing t = ok (ignores, t)

-- The arguments, which are strings.
unfoldable pub frame_args : Frames → Option (List Bytes)
frame_args no_frames = some []
frame_args (bulk_string b ▷ fs) =
    let rest = frame_args fs in elim rest [ none ↦ none | some args ↦ some (b ∷ args) ]
frame_args (simple_string b ▷ fs) =
    let rest = frame_args fs in elim rest [ none ↦ none | some args ↦ some (b ∷ args) ]
frame_args (error b ▷ fs) = none
frame_args (integer n ▷ fs) = none
frame_args (array gs ▷ fs) = none
frame_args (null ▷ fs) = none

abbrev pub with_args : Bytes → Option (List Bytes) → Option (Bytes × List Bytes)
with_args cmd none = none
with_args cmd (some args) = some (cmd, args)

-- The crate's frames have the kinds of `SharedFrame`.
unfoldable pub frame_to_args : Frame → Option (Bytes × List Bytes)
unfolding frame_args
frame_to_args (array no_frames) = none
frame_to_args (array (bulk_string b ▷ fs)) = with_args b (frame_args fs)
frame_to_args (array (simple_string b ▷ fs)) = with_args b (frame_args fs)
frame_to_args (array (error b ▷ fs)) = none
frame_to_args (array (integer n ▷ fs)) = none
frame_to_args (array (array gs ▷ fs)) = none
frame_to_args (array (null ▷ fs)) = none
frame_to_args (bulk_string b) = some (b, [])
frame_to_args (simple_string b) = some (b, [])
frame_to_args (error b) = none
frame_to_args (integer n) = none
frame_to_args null = none
