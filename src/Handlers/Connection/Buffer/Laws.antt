-- ===== src/Handlers/Connection/Buffer/Laws.antt =====
-- What the loop does with commands that come in one after the other.
use radixox.Common.{
  ℕ, zero, suc, ◌<◌, ◌≡◌, refl, ap, ◌∙◌, Bool, true, false, List, [], ◌∷◌, map, Option, some, Run,
  ok, panic, length, codes, arith,
}
use radixox.Command.{Bytes}
use radixox.Frame.{Frame, array}
use radixox.Frame.Sent.{bulk_strings}
use radixox.PubSub.{ConnState, normal, pub_sub, blocking, nothing}
use radixox.Tree.{Crates, Tree}
use radixox.Value.{Value}
use radixox.ZSet.{ZSet}
use radixox.ZSet.Entries.{Floats}
use radixox.Handlers.{ok_frame}
use radixox.Handlers.Options.{upper}
use radixox.Handlers.Server.{Limits}
use radixox.Handlers.Table.{quit, get_handler}
use radixox.Handlers.Connection.{
  Action, sends, says_goodbye, dispatch, when_normal, when_subscribed, unknown, frame_args,
  frame_to_args, with_args,
}
use radixox.Handlers.Connection.Buffer.{
  Decoded, incomplete, broken, decoded, Rest, waits, leaves, World, serve, go_on, round,
  handle_buffer,
}

frame_args-bulk_strings : (args : List Bytes) → frame_args (bulk_strings args) ≡ some args
unfolding frame_args
frame_args-bulk_strings [] = refl
frame_args-bulk_strings (b ∷ args) = rw (frame_args-bulk_strings args) refl

-- A command that is sent as an array of bulk strings is understood.
pub frame_to_args-bulk_strings :
    (cmd : Bytes) (args : List Bytes)
    → frame_to_args (array (bulk_strings (cmd ∷ args))) ≡ some (cmd, args)
unfolding frame_to_args
frame_to_args-bulk_strings cmd args = ap (with_args cmd) (frame_args-bulk_strings args)

abbrev pub command : Bytes × List Bytes → Frame
command c = array (bulk_strings (c.0 ∷ c.1))

-- The buffer decodes to the commands one after the other, with the bytes `end` behind them.
abbrev pub Feeds : (Bytes → Decoded) → List (Bytes × List Bytes) → Bytes → Bytes → Type 0
Feeds decode [] buf end = buf ≡ end
Feeds decode (c ∷ cs) buf end =
    (rest : Bytes) × (decode buf ≡ decoded (command c) rest) × Feeds decode cs rest end

module _ {W R F : Type 0} {m : Crates (Value (ZSet F))} (decode : Bytes → Decoded)
    (perform : Action → World W R m → Run (Bool × World W R m)) (lossy : Bytes → Bytes)
    (fl : Floats F) (limits : Limits) where
  -- One command, which goes well or not.
  abbrev pub Serves : Bytes × List Bytes → World W R m → Bool → World W R m → Type 0
  Serves c w fine w' = serve decode perform lossy fl limits (some c) w ≡ ok (fine, w')

  -- The commands in their order, all of which go well.
  abbrev pub ServesAll : List (Bytes × List Bytes) → World W R m → World W R m → Type 0
  ServesAll [] w w' = w ≡ w'
  ServesAll (c ∷ cs) w w' = (w1 : World W R m) × Serves c w true w1 × ServesAll cs w1 w'

  abbrev handled : ℕ → Bytes → World W R m → Option (Run (Rest × World W R m))
  handled = handle_buffer decode perform lossy fl limits

  handle_buffer-Serves :
      (fuel : ℕ) (buf rest : Bytes) (c : Bytes × List Bytes) (fine : Bool) (w w' : World W R m)
      → decode buf ≡ decoded (command c) rest
      → Serves c w fine w'
      → handled (suc fuel) buf w
        ≡ go_on decode perform lossy fl limits (handled fuel) rest (ok (fine, w'))
  unfolding handle_buffer
  handle_buffer-Serves fuel buf rest c fine w w' next served =
      ap (round decode perform lossy fl limits buf (handled fuel) w) next
      ∙ ap
          (λ o.
            go_on decode perform lossy fl limits (handled fuel) rest
              (serve decode perform lossy fl limits o w))
          (frame_to_args-bulk_strings c.0 c.1)
      ∙ ap (go_on decode perform lossy fl limits (handled fuel) rest) served

  -- Behind commands that go well the loop stands where they end, with fuel left.
  handle_buffer_behind :
      (cs : List (Bytes × List Bytes)) (fuel : ℕ) (buf end : Bytes) (w w' : World W R m)
      → Feeds decode cs buf end
      → ServesAll cs w w'
      → length cs < fuel
      → (k : ℕ) × (handled fuel buf w ≡ handled (suc k) end w')
  handle_buffer_behind cs zero buf end w w' fed served h = elim h [ ]
  handle_buffer_behind [] (suc fuel) buf end w w' same stay h =
      (fuel, ap (λ b. handled (suc fuel) b w) same ∙ ap (handled (suc fuel) end) stay)
  handle_buffer_behind (c ∷ cs) (suc fuel) buf end w w' (rest, next, fed) (w1, one, more) h =
      let (k, same) = handle_buffer_behind cs fuel rest end w1 w' fed more (omega arith) in
      (k, handle_buffer-Serves fuel buf rest c true w w1 next one ∙ same)

  -- Commands that come in one after the other, and go well, are served in their order, each in the
  -- state that the one before leaves; if no whole frame is behind them, the loop then ends with `Ok`, and
  -- the bytes behind them stay in the buffer.
  pub handle_buffer-ServesAll :
      (cs : List (Bytes × List Bytes)) (fuel : ℕ) (buf end : Bytes) (w w' : World W R m)
      → Feeds decode cs buf end
      → ServesAll cs w w'
      → length cs < fuel
      → decode end ≡ incomplete
      → handle_buffer decode perform lossy fl limits fuel buf w ≡ some (ok (waits end, w'))
  unfolding handle_buffer
  handle_buffer-ServesAll cs fuel buf end w w' fed served h stop =
      let (k, same) = handle_buffer_behind cs fuel buf end w w' fed served h in
      same ∙ ap (round decode perform lossy fl limits end (handled k) w') stop

  -- A command that does not go well ends the loop with `Err`, in the state that it leaves.
  pub handle_buffer_leaves :
      (cs : List (Bytes × List Bytes)) (fuel : ℕ) (buf end rest : Bytes) (c : Bytes × List Bytes)
      (w w' w'' : World W R m)
      → Feeds decode cs buf end
      → ServesAll cs w w'
      → length cs < fuel
      → decode end ≡ decoded (command c) rest
      → Serves c w' false w''
      → handle_buffer decode perform lossy fl limits fuel buf w ≡ some (ok (leaves rest, w''))
  handle_buffer_leaves cs fuel buf end rest c w w' w'' fed served h next off =
      let (k, same) = handle_buffer_behind cs fuel buf end w w' fed served h in
      same ∙ handle_buffer-Serves k end rest c false w' w'' next off

  -- A connection that is not in the middle of something else.
  abbrev pub Listens : ConnState W → Type 0
  Listens (normal write buf) = Unit
  Listens (pub_sub id) = Unit
  Listens blocking = ⊥
  Listens nothing = ⊥

  get_handler-quit : get_handler fl limits {m = m} (codes "QUIT") ≡ some quit
  unfolding get_handler
  get_handler-quit = refl

  dispatch-quit :
      (s : ConnState W) (args : List Bytes) (t : Tree m)
      → Listens s
      → dispatch lossy fl limits (codes "QUIT") args s t ≡ ok (says_goodbye ok_frame, t)
  unfolding dispatch
  dispatch-quit (normal write buf) args t l =
      ap (λ o. when_normal (unknown lossy (codes "QUIT")) o args t) get_handler-quit
  dispatch-quit (pub_sub id) args t l = ap (λ o. ok (when_subscribed o args, t)) get_handler-quit
  dispatch-quit blocking args t l = elim l [ ]
  dispatch-quit nothing args t l = elim l [ ]

  serve-quit :
      (cmd : Bytes) (args : List Bytes) (w w' : World W R m) (fine : Bool)
      → map upper cmd ≡ codes "QUIT"
      → Listens w.conn
      → perform (sends ok_frame) w ≡ ok (fine, w')
      → Serves (cmd, args) w false w'
  unfolding serve
  serve-quit cmd args w w' fine name l sent =
      rw (name, dispatch-quit w.conn args w.tree l) (rw sent refl)

  -- A QUIT in any spelling, behind commands that go well, in a connection with or without subscriptions,
  -- ends the loop with `Err` once OK is sent, whether the sending goes well or not: the bytes behind it
  -- stay in the buffer, and no command among them is served.
  pub handle_buffer-quit :
      (cs : List (Bytes × List Bytes)) (fuel : ℕ) (buf end rest : Bytes) (cmd : Bytes)
      (args : List Bytes) (w w' w'' : World W R m) (fine : Bool)
      → Feeds decode cs buf end
      → ServesAll cs w w'
      → length cs < fuel
      → decode end ≡ decoded (command (cmd, args)) rest
      → map upper cmd ≡ codes "QUIT"
      → Listens w'.conn
      → perform (sends ok_frame) w' ≡ ok (fine, w'')
      → handle_buffer decode perform lossy fl limits fuel buf w ≡ some (ok (leaves rest, w''))
  handle_buffer-quit cs fuel buf end rest cmd args w w' w'' fine fed served h next name l sent =
      handle_buffer_leaves cs fuel buf end rest (cmd, args) w w' w'' fed served h next
        (serve-quit cmd args w' w'' fine name l sent)

  -- If every frame takes a byte or more off the buffer, the loop ends within as many rounds as the
  -- buffer has bytes, and one more.
  abbrev Ends : Option (Run (Rest × World W R m)) → Type 0
  Ends o = (run : Run (Rest × World W R m)) × (o ≡ some run)

  round-Ends :
      (fuel : ℕ) (buf : Bytes) (w : World W R m) (d : Decoded)
      → ((rest : Bytes) (f : Frame) (w' : World W R m)
          → d ≡ decoded f rest
          → Ends (handled fuel rest w'))
      → Ends (round decode perform lossy fl limits buf (handled fuel) w d)
  round-Ends fuel buf w incomplete on = (ok (waits buf, w), refl)
  round-Ends fuel buf w (broken e) on = (_, refl)
  round-Ends fuel buf w (decoded f rest) on =
      go (serve decode perform lossy fl limits (frame_to_args f) w)
    where
      go :
          (r : Run (Bool × World W R m))
          → Ends (go_on decode perform lossy fl limits (handled fuel) rest r)
      go panic = (panic, refl)
      go (ok (true, w')) = on rest f w' refl
      go (ok (false, w')) = (ok (leaves rest, w'), refl)

  pub handle_buffer-Ends :
      ((buf rest : Bytes) (f : Frame) → decode buf ≡ decoded f rest → length rest < length buf)
      → (fuel : ℕ) (buf : Bytes) (w : World W R m) → length buf < fuel
      → (run : Run (Rest × World W R m)) × (handle_buffer decode perform lossy fl limits fuel buf w
          ≡ some run)
  unfolding handle_buffer
  handle_buffer-Ends shrinks zero buf w h = elim h [ ]
  handle_buffer-Ends shrinks (suc fuel) buf w h =
      round-Ends fuel buf w (decode buf) (λ rest f w' e.
        handle_buffer-Ends shrinks fuel rest w' (omega (arith, shrinks buf rest f e)))
