-- ===== src/PubSub/Writer.antt =====
-- The tasks that write the buffers of one connection: `trigger_write`, `handle_pubsub_write` and
-- `write_task` of radixox/src/bin/utils/mod.rs, cut at each `await` into steps.
pub mod Live
pub mod Order
pub mod Drain
use radixox.Common.{
  ℕ, Bool, true, false, if◌then◌else◌, List, [], ◌∷◌, ◌++◌, Option, none, some, ◌≡◌, take,
}
use radixox.PubSub.{
  CancelationState, cancel, Conn, ConnWriter, get_conn_writer, restitute_conn_writer, extend,
}

-- "write error"
abbrev pub write_error : List ℕ
write_error = b'w' ∷ b'r' ∷ b'i' ∷ b't' ∷ b'e' ∷ b' ' ∷ b'e' ∷ b'r' ∷ b'r' ∷ b'o' ∷ b'r' ∷ []

-- A task that holds the writer: a `write_task` that has been spawned, or one that waits for
-- `write_all`, be it in `write_task` or in `handle_pubsub_write`.
pub data Task (W : Type 0) : Type 0 where
  spawned writing : ConnWriter W → Task W

-- What the registry has for the connection, the tasks in the order in which they run, and the bytes
-- that the socket has taken.
pub record Link (W V : Type 0) : Type 0 where
  pub conn : Option (Conn W V)
  pub tasks : List (Task W)
  pub wire : List ℕ

module _ {W V : Type 0} where
  -- A message of a publisher.
  unfoldable pub receive : List ℕ → Link W V → Link W V
  receive bs s = elim s.conn [ none ↦ s | some conn ↦ record s { conn = some (extend bs conn) } ]

  unfoldable pub trigger_write : Link W V → Link W V
  trigger_write s = elim s.conn [
    | none ↦ s
    | some conn ↦
        let (maybe, conn) = get_conn_writer conn in
        elim maybe [
          | none ↦ record s { conn = some conn }
          | some cw ↦ record s { conn = some conn; tasks = s.tasks ++ spawned cw ∷ [] }
        ]
  ]

  -- `handle_pubsub_write`, up to the write: the frame is in the bytes `bs`.
  unfoldable pub send_start : List ℕ → Link W V → Link W V
  send_start bs s = elim s.conn [
    | none ↦ s
    | some conn ↦
        let (maybe, conn) = get_conn_writer (extend bs conn) in
        elim maybe [
          | none ↦ record s { conn = some conn }
          | some cw ↦ record s { conn = some conn; tasks = s.tasks ++ writing cw ∷ [] }
        ]
  ]

  -- The first block of `write_task`, in which the buffers are swapped.
  unfoldable pub task_start : ConnWriter W → Link W V → Link W V
  task_start cw s = elim s.conn [
    | none ↦ s
    | some conn ↦ record s {
      conn = some (record conn { io_buffer = cw.buffer });
      tasks = s.tasks ++ writing (record cw { buffer = conn.io_buffer }) ∷ [];
    }
  ]

  -- What follows a successful write: more to write is left to a new task.
  unfoldable pub write_done : ConnWriter W → Link W V → Link W V
  write_done cw s =
      let wire = s.wire ++ cw.buffer in
      let cw = record cw { buffer = [] } in
      elim s.conn [
        | none ↦ record s { wire = wire }
        | some conn ↦ elim conn.io_buffer [
          | [] ↦ record s { conn = some (restitute_conn_writer cw conn); wire = wire }
          | b ∷ bs ↦ record s { tasks = s.tasks ++ spawned cw ∷ []; wire = wire }
        ]
      ]

  -- What follows a write that failed behind `k` bytes: the writer is dropped.
  unfoldable pub write_failed : ℕ → ConnWriter W → Link W V → Link W V
  write_failed k cw s =
      let wire = s.wire ++ take k cw.buffer in
      elim s.conn [
        | none ↦ record s { wire = wire }
        | some conn ↦ record s {
          conn = some (record conn { cancelation = (cancel write_error conn.cancelation).1 });
          wire = wire;
        }
      ]

  -- `cleanup`, for this connection
  unfoldable pub close : Link W V → Link W V
  close s = record s { conn = none }

  -- One step of the server. The first task runs, or goes to the end.
  pub data Step : Link W V → Link W V → Type 0 where
    receives : {s : Link W V} (bs : List ℕ) → Step s (receive bs s)
    triggers : {s : Link W V} → Step s (trigger_write s)
    sends : {s : Link W V} (bs : List ℕ) → Step s (send_start bs s)
    starts :
        {c : Option (Conn W V)} {ts : List (Task W)} {out : List ℕ} (cw : ConnWriter W)
        → Step
            (record { conn = c; tasks = spawned cw ∷ ts; wire = out })
            (task_start cw (record { conn = c; tasks = ts; wire = out }))
    writes :
        {c : Option (Conn W V)} {ts : List (Task W)} {out : List ℕ} (cw : ConnWriter W)
        → Step
            (record { conn = c; tasks = writing cw ∷ ts; wire = out })
            (write_done cw (record { conn = c; tasks = ts; wire = out }))
    fails :
        {c : Option (Conn W V)} {ts : List (Task W)} {out : List ℕ} (k : ℕ) (cw : ConnWriter W)
        → Step
            (record { conn = c; tasks = writing cw ∷ ts; wire = out })
            (write_failed k cw (record { conn = c; tasks = ts; wire = out }))
    waits :
        {c : Option (Conn W V)} {ts : List (Task W)} {out : List ℕ} (t : Task W)
        → Step
            (record { conn = c; tasks = t ∷ ts; wire = out })
            (record { conn = c; tasks = ts ++ t ∷ []; wire = out })
    closes : {s : Link W V} → Step s (close s)

  infixr 20 ◌▸◌
  pub data Steps : Link W V → Link W V → Type 0 where
    done : {s : Link W V} → Steps s s
    ◌▸◌ : {s s' s'' : Link W V} → Step s s' → Steps s' s'' → Steps s s''

  abbrev pub message : {s s' : Link W V} → Step s s' → List ℕ
  message (receives bs) = bs
  message triggers = []
  message (sends bs) = bs
  message (starts cw) = []
  message (writes cw) = []
  message (fails k cw) = []
  message (waits t) = []
  message closes = []

  -- The bytes for the connection that come up in a run.
  abbrev pub messages : {s s' : Link W V} → Steps s s' → List ℕ
  messages done = []
  messages (st ▸ run) = message st ++ messages run
