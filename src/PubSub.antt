-- ===== src/PubSub.antt =====
-- The connections that publish and subscribe: `Conn`, `ConnWriter`, `CancelationFutur` and `ConnState` of
-- radixox/src/bin/utils/mod.rs. A write half of a socket and a waker are of any types `W` and `V`.
pub mod Writer
pub mod Channels
pub mod Registry
use radixox.Common.{
  ℕ, Bool, true, false, ◌||◌, if◌then◌else◌, List, [], ◌∷◌, ◌++◌, Option, none, some,
}
use radixox.GenArena.{Key}

-- The state that a `CancelationFutur` shares with its clones.
pub data CancelationState (V : Type 0) : Type 0 where
  submit : CancelationState V
  running : V → CancelationState V
  canceled : List ℕ → CancelationState V

module _ {V : Type 0} where
  -- The waker that is woken, if any, and the state.
  abbrev pub cancel : List ℕ → CancelationState V → Option V × CancelationState V
  cancel reason submit = (none, canceled reason)
  cancel reason (running waker) = (some waker, canceled reason)
  cancel reason (canceled r) = (none, canceled reason)

  -- `Poll::Ready` with a reason, or `Poll::Pending`, and the state.
  abbrev pub poll : V → CancelationState V → Option (List ℕ) × CancelationState V
  poll waker submit = (none, running waker)
  poll waker (running w) = (none, running waker)
  poll waker (canceled r) = (some r, canceled r)

pub record Conn (W V : Type 0) : Type 0 where
  pub write : Option W
  pub cancelation : CancelationState V
  pub io_buffer : List ℕ
  pub swap_buffer : Option (List ℕ)
  pub channel_count : ℕ

pub record ConnWriter (W : Type 0) : Type 0 where
  pub write : W
  pub buffer : List ℕ

pub data ConnState (W : Type 0) : Type 0 where
  normal : W → List ℕ → ConnState W
  pub_sub : Key → ConnState W
  blocking nothing : ConnState W

module _ {W V : Type 0} where
  -- `Conn::new`
  abbrev pub new_conn : W → List ℕ → CancelationState V → Conn W V
  new_conn write io_buffer cancelation = record {
    write = some write;
    cancelation = cancelation;
    io_buffer = io_buffer;
    swap_buffer = some [];
    channel_count = 0;
  }

  -- Without a write half or a second buffer there is no writer.
  abbrev pub get_conn_writer : Conn W V → Option (ConnWriter W) × Conn W V
  get_conn_writer conn = elim conn.write [
    | none ↦ (none, conn)
    | some write ↦ elim conn.swap_buffer [
      | none ↦ (none, conn)
      | some swap ↦ (
        some (record { write = write; buffer = conn.io_buffer }),
        record conn { write = none; io_buffer = swap; swap_buffer = none },
      )
    ]
  ]

  abbrev pub restitute_conn_writer : ConnWriter W → Conn W V → Conn W V
  restitute_conn_writer cw conn = record conn {
    write = some cw.write;
    swap_buffer = some cw.buffer;
  }

  -- `conn.io_buffer.extend_from_slice(..)`
  abbrev pub extend : List ℕ → Conn W V → Conn W V
  extend bs conn = record conn { io_buffer = conn.io_buffer ++ bs }
