-- ===== src/PubSub/Registry/Subscribe.antt =====
-- What `subscribe` does for a connection that has no subscription.
use radixox.Common.{
  same_bytes, ℕ, if◌then◌else◌, List, [], ◌∷◌, ◌++◌, some, ◌≡◌, ◌≢◌, ◌⊎◌, refl, ◌<◌, Returns,
  length, no_index,
}
use radixox.GenArena.{Key, get}
use radixox.GenArena.Laws.{IsValid}
use radixox.GenArena.Insert.{insert-Inserts}
use radixox.PubSub.{CancelationState, submit, Conn, ConnState, normal, pub_sub, new_conn}
use radixox.PubSub.Channels.{get_channel, push_sub}
use radixox.PubSub.Channels.Laws.{Distinct, list_of, get_channel-push_sub, Distinct-push_sub}
use radixox.PubSub.Registry.{SubRegistry, enter, subscribe}

-- The result of `subscribe`.
abbrev pub Outcome : Type 0 → Type 0 → Type 0
Outcome W V = (CancelationState V × Key × ℕ) × SubRegistry W V × ConnState W

module _ {W V : Type 0} where
  -- A connection with its first channel.
  abbrev pub first_conn : W → List ℕ → Conn W V
  first_conn write io_buf = record (new_conn write io_buf submit) { channel_count = 1 }

  pub record Enters (r : SubRegistry W V) (write : W) (io_buf ch : List ℕ) (out : Outcome W V)
      : Type 0 where
    pub vacant : List ℕ
    pub valid : IsValid vacant out.1.conn_arena
    pub switched : out.2 ≡ pub_sub out.0.1
    pub told : out.0.2 ≡ 1
    pub here : get out.1.conn_arena out.0.1 ≡ some (first_conn write io_buf)
    pub elsewhere :
        (k : Key)
        → (k.idx ≢ out.0.1.idx) ⊎ (k.generation ≢ out.0.1.generation)
        → get out.1.conn_arena k ≡ get r.conn_arena k
    pub distinct : Distinct out.1.conn_map
    pub listed :
        (q : List ℕ)
        → get_channel q out.1.conn_map ≡ (
            if same_bytes q ch
            then some (list_of (get_channel ch r.conn_map) ++ out.0.1 ∷ [])
            else get_channel q r.conn_map)

  -- In a valid registry with room, `subscribe` for a connection without subscriptions does not panic:
  -- the connection is registered under a key that it is then known by, with its write half and
  -- buffer and one channel, the key is the last subscription of the channel, and all other
  -- connections and channels are as they were.
  pub subscribe-Enters :
      (vacant : List ℕ) (r : SubRegistry W V) (write : W) (io_buf ch : List ℕ)
      → IsValid vacant r.conn_arena
      → length r.conn_arena.slots < no_index
      → Distinct r.conn_map
      → Returns (subscribe r (normal write io_buf) ch) (Enters r write io_buf ch)
  unfolding subscribe enter
  subscribe-Enters vacant r write io_buf ch v room d =
      let (p, run, w) = insert-Inserts vacant r.conn_arena (first_conn write io_buf) v room in
      (
        (
          (submit, p.0, 1),
          record { conn_arena = p.1; conn_map = push_sub ch p.0 r.conn_map },
          pub_sub p.0,
        ),
        rw (run, w.here) refl,
        record {
          vacant = w.vacant;
          valid = w.valid;
          switched = refl;
          told = refl;
          here = w.here;
          elsewhere = w.elsewhere;
          distinct = Distinct-push_sub ch p.0 r.conn_map d;
          listed = λ q. get_channel-push_sub q ch p.0 r.conn_map;
        },
      )
