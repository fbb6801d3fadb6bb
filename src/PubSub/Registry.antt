-- ===== src/PubSub/Registry.antt =====
-- `SubRegistry` of radixox/src/bin/utils/mod.rs: the subscribed connections, and for each channel the
-- subscriptions. The hash map is a list of entries, searched from the front.
pub mod Subscribe
pub mod Publish
pub mod Cleanup
use radixox.Common.{
  ℕ, zero, suc, ◌+◌, ◌-◌, Bool, true, false, not, ◌&&◌, ltb, ◌==◌, if◌then◌else◌, List, [], ◌∷◌,
  ◌++◌, map, Option, none, some, Run, ok, panic, ◌>>=◌, length, pos,
}
use radixox.GenArena
use radixox.GenArena.{Key, GenArena, same_key}
use radixox.Frame.{Frame, Frames, bulk_string, integer, array, error, no_frames, ◌▷◌, extend_encode}
use radixox.PubSub.Channels.{
  Channels, get_channel, push_sub, drop_sub, drop_everywhere, confirmations, wrong_number,
  to_remove, encode_pubsub_message,
}
use radixox.PubSub.{
  CancelationState, submit, Conn, ConnState, normal, pub_sub, blocking, nothing, new_conn, extend,
}

pub record SubRegistry (W V : Type 0) : Type 0 where
  pub conn_arena : GenArena (Conn W V)
  pub conn_map : Channels

module _ {W V : Type 0} where
  abbrev pub new : SubRegistry W V
  new = record { conn_arena = GenArena.with_capacity 64; conn_map = [] }

  abbrev pub count_of : Option (Conn W V) → ℕ
  count_of none = 0
  count_of (some conn) = conn.channel_count

  abbrev pub cancelation_of : Option (Conn W V) → CancelationState V
  cancelation_of none = submit
  cancelation_of (some conn) = conn.cancelation

  -- The connection's key, and the registry and the state that have it.
  unfoldable pub enter : SubRegistry W V → ConnState W → Run (Key × SubRegistry W V × ConnState W)
  enter r (normal write io_buf) = do
    (id, arena) ←
        GenArena.insert r.conn_arena (record (new_conn write io_buf submit) { channel_count = 1 })
    ok (id, record r { conn_arena = arena }, pub_sub id)
  enter r (pub_sub id) = ok (
    id,
    record r {
      conn_arena =
          GenArena.update r.conn_arena id
            (λ conn. record conn { channel_count = conn.channel_count + 1 });
    },
    pub_sub id,
  )
  enter r blocking = panic
  enter r nothing = panic

  unfoldable pub subscribe :
      SubRegistry W V
      → ConnState W
      → List ℕ
      → Run ((CancelationState V × Key × ℕ) × SubRegistry W V × ConnState W)
  unfolding enter
  subscribe r state ch = do
    (id, r, state) ← enter r state
    let r = record r { conn_map = push_sub ch id r.conn_map }
    let conn = GenArena.get r.conn_arena id
    ok ((cancelation_of conn, id, count_of conn), r, state)

  -- The loop over the channels to leave.
  unfoldable pub leave : Key → List (List ℕ) → SubRegistry W V → SubRegistry W V
  leave id [] r = r
  leave id (ch ∷ chs) r = leave id chs (record r {
    conn_map = drop_sub ch id r.conn_map;
    conn_arena =
        GenArena.update r.conn_arena id
          (λ conn. record conn { channel_count = conn.channel_count - 1 });
  })

  -- The connection leaves the registry if its write half is there.
  unfoldable pub return_writer : Key → SubRegistry W V → SubRegistry W V × ConnState W
  return_writer id r = elim (GenArena.get r.conn_arena id) [
    | none ↦ (r, pub_sub id)
    | some conn ↦ elim conn.write [
      | none ↦ (r, pub_sub id)
      | some write ↦ (
        record r { conn_arena = (GenArena.remove r.conn_arena id).1 },
        normal write conn.io_buffer,
      )
    ]
  ]

  unfoldable pub unsubscribe :
      SubRegistry W V → ConnState W → List (List ℕ) → List Frame × SubRegistry W V × ConnState W
  unfolding leave return_writer
  unsubscribe r (pub_sub id) channels =
      let chs = to_remove id r.conn_map channels in
      let r' = leave id chs r in
      let remaining = count_of (GenArena.get r'.conn_arena id) in
      let frames = confirmations remaining (length chs) 0 chs in
      let (left, state) = return_writer id r' in
      if remaining == 0 then (frames, left, state) else (frames, r', pub_sub id)
  unsubscribe r (normal write io_buf) channels = ([], r, normal write io_buf)
  unsubscribe r blocking channels = ([], r, blocking)
  unsubscribe r nothing channels = ([], r, nothing)

  -- The message goes into the buffer of each connection that is there; those are to be flushed.
  unfoldable pub deliver : List ℕ → List Key → GenArena (Conn W V) → List Key × GenArena (Conn W V)
  deliver encoded [] arena = ([], arena)
  deliver encoded (id ∷ ids) arena =
      let (flush, arena') = deliver encoded ids (GenArena.update arena id (extend encoded)) in
      (elim (GenArena.get arena id) [ none ↦ flush | some conn ↦ id ∷ flush ], arena')

  unfoldable pub publish_encode :
      SubRegistry W V → List (List ℕ) → Run ((Frame × List Key) × SubRegistry W V)
  unfolding deliver
  publish_encode r [] = ok ((error wrong_number, []), r)
  publish_encode r (ch ∷ []) = ok ((error wrong_number, []), r)
  publish_encode r (ch ∷ message ∷ more) = do
    encoded ← encode_pubsub_message ch message
    elim (get_channel ch r.conn_map) [
      | none ↦ ok ((integer (pos 0), []), r)
      | some subs ↦
          let (flush, arena) = deliver encoded subs r.conn_arena in
          ok ((integer (pos (length subs)), flush), record r { conn_arena = arena })
    ]

  unfoldable pub cleanup : SubRegistry W V → Key → SubRegistry W V
  cleanup r id = record {
    conn_arena = (GenArena.remove r.conn_arena id).1;
    conn_map = drop_everywhere id r.conn_map;
  }
