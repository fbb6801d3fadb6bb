-- ===== src/PubSub/Registry/Publish.antt =====
-- Who receives a message.
use radixox.Common.{
  ℕ, ◌^◌, ◌<◌, if◌then◌else◌, List, [], ◌∷◌, ◌++◌, append_assoc, append-nil, Option, none, some,
  ◌≡◌, refl, sym, ap, ◌∙◌, ok, Returns, length, arith, Bool-cases, Option-cases, inl, inr, pos,
}
use radixox.GenArena.{Key, GenArena, get, update, same_key}
use radixox.GenArena.Update.{changed, get-update}
use radixox.Frame.{Frame, bulk_string, array, no_frames, ◌▷◌, integer}
use radixox.Frame.Print.{printed, IsSized, extend_encode-printed}
use radixox.PubSub.{Conn, extend}
use radixox.PubSub.Channels.{get_channel, message_word, encode_pubsub_message}
use radixox.PubSub.Channels.Laws.{list_of}
use radixox.PubSub.Registry.{SubRegistry, deliver, publish_encode}

-- The bytes, as often as the key is among the subscriptions.
abbrev pub copies : List ℕ → Key → List Key → List ℕ
copies bs k [] = []
copies bs k (id ∷ ids) = if same_key id k then bs ++ copies bs k ids else copies bs k ids

-- ["message", channel, message]
abbrev pub message_frame : List ℕ → List ℕ → Frame
message_frame ch message =
    array (bulk_string message_word ▷ bulk_string ch ▷ bulk_string message ▷ no_frames)

encode_pubsub_message-printed :
    (ch message : List ℕ)
    → length ch < 2 ^ 64
    → length message < 2 ^ 64
    → encode_pubsub_message ch message ≡ ok (printed (message_frame ch message))
unfolding encode_pubsub_message
encode_pubsub_message-printed ch message h k =
    let sized : IsSized (message_frame ch message) = (omega arith, (omega arith, (h, (k, tt)))) in
    extend_encode-printed [] (message_frame ch message) sized

module _ {W V : Type 0} where
  extend-nil : (o : Option (Conn W V)) → o ≡ changed (extend []) o
  extend-nil none = refl
  extend-nil (some conn) =
      ap (λ bs. some (record conn { io_buffer = bs })) (sym (append-nil conn.io_buffer))

  extend-append :
      (bs cs : List ℕ) (o : Option (Conn W V))
      → changed (extend cs) (changed (extend bs) o) ≡ changed (extend (bs ++ cs)) o
  extend-append bs cs none = refl
  extend-append bs cs (some conn) =
      ap (λ bs. some (record conn { io_buffer = bs })) (append_assoc conn.io_buffer bs cs)

  -- The subscription of `id`, and then the others.
  both :
      (bs : List ℕ) (id : Key) (ids : List Key) (a : GenArena (Conn W V)) (k : Key)
      → changed (extend (copies bs k ids)) (get (update a id (extend bs)) k)
        ≡ changed (extend (copies bs k (id ∷ ids))) (get a k)
  both bs id ids a k = elim (Bool-cases (same_key id k)) [
    | inl same ↦
        rw (get-update a id (extend bs) k, same) (extend-append bs (copies bs k ids) (get a k))
    | inr other ↦ rw (get-update a id (extend bs) k, other) refl
  ]

  get-deliver :
      (bs : List ℕ) (ids : List Key) (a : GenArena (Conn W V)) (k : Key)
      → get (deliver bs ids a).1 k ≡ changed (extend (copies bs k ids)) (get a k)
  unfolding deliver
  get-deliver bs [] a k = extend-nil (get a k)
  get-deliver bs (id ∷ ids) a k =
      get-deliver bs ids (update a id (extend bs)) k ∙ both bs id ids a k

  pub record Delivers (r : SubRegistry W V) (ch message : List ℕ)
      (out : (Frame × List Key) × SubRegistry W V) : Type 0 where
    pub counted : out.0.0 ≡ integer (pos (length (list_of (get_channel ch r.conn_map))))
    pub received :
        (k : Key)
        → get out.1.conn_arena k
          ≡ changed
              (extend (
                copies
                  (printed (message_frame ch message))
                  k
                  (list_of (get_channel ch r.conn_map))))
              (get r.conn_arena k)
    pub same_channels : out.1.conn_map ≡ r.conn_map

  -- `publish_encode` does not panic, counts the subscriptions of the channel, and appends the frame of
  -- the message to the buffer of each connection once for each subscription; channels stay.
  pub publish_encode-Delivers :
      (r : SubRegistry W V) (ch message : List ℕ) (more : List (List ℕ))
      → length ch < 2 ^ 64
      → length message < 2 ^ 64
      → Returns (publish_encode r (ch ∷ message ∷ more)) (Delivers r ch message)
  unfolding publish_encode
  publish_encode-Delivers r ch message more h k =
      let run = encode_pubsub_message-printed ch message h k in
      let bs = printed (message_frame ch message) in
      elim (Option-cases (get_channel ch r.conn_map)) [
        | inl off ↦ (
          ((integer (pos 0), []), r),
          rw (run, off) refl,
          record {
            counted = rw off refl;
            received = λ k. rw off (extend-nil (get r.conn_arena k));
            same_channels = refl;
          },
        )
        | inr (subs, on) ↦
            let (flush, arena) = deliver bs subs r.conn_arena in
            (
              ((integer (pos (length subs)), flush), record r { conn_arena = arena }),
              rw (run, on) refl,
              record {
                counted = rw on refl;
                received = λ k. rw on (get-deliver bs subs r.conn_arena k);
                same_channels = refl;
              },
            )
      ]
