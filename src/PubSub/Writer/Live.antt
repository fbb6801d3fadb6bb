-- ===== src/PubSub/Writer/Live.antt =====
-- Who holds the write half of a connection, and where its bytes are.
use radixox.Common.{
  ℕ, ◌+◌, ◌==◌, if◌then◌else◌, List, [], ◌∷◌, ◌++◌, Option, none, some, ◌≡◌, arith, ◌⊎◌, inl, inr,
}
use radixox.PubSub.{CancelationState, submit, running, canceled, Conn}
use radixox.PubSub.Writer.{
  Task, spawned, writing, Link, write_error, receive, trigger_write, send_start, task_start,
  write_done, write_failed, close, Step, receives, triggers, sends, starts, writes, fails, waits,
  closes, Steps, done, ◌▸◌, message, messages,
}

-- How often the byte is there.
abbrev pub amount : ℕ → List ℕ → ℕ
amount x [] = 0
amount x (b ∷ bs) = (if b == x then 1 else 0) + amount x bs

pub amount-append : (x : ℕ) (bs cs : List ℕ) → amount x (bs ++ cs) ≡ amount x bs + amount x cs
amount-append x [] cs = omega arith
amount-append x (b ∷ bs) cs = omega (arith, amount-append x bs cs)

module _ {W : Type 0} where
  abbrev pub buffered : Task W → List ℕ
  buffered (spawned cw) = cw.buffer
  buffered (writing cw) = cw.buffer

  -- How often the byte is on its way in a task.
  abbrev pub in_tasks : ℕ → List (Task W) → ℕ
  in_tasks x [] = 0
  in_tasks x (t ∷ ts) = amount x (buffered t) + in_tasks x ts

module _ {W V : Type 0} where
  -- The connection has the write half, and no task runs; or the write half is with the one task.
  pub data Live : Link W V → Type 0 where
    free :
        {w : W} {c : CancelationState V} {io out : List ℕ} {n : ℕ}
        → Live (record {
          conn = some (record {
            write = some w;
            cancelation = c;
            io_buffer = io;
            swap_buffer = some [];
            channel_count = n;
          });
          tasks = [];
          wire = out;
        })
    busy :
        {t : Task W} {c : CancelationState V} {io out : List ℕ} {n : ℕ}
        → Live (record {
          conn = some (record {
            write = none;
            cancelation = c;
            io_buffer = io;
            swap_buffer = none;
            channel_count = n;
          });
          tasks = t ∷ [];
          wire = out;
        })

  -- The write half has been dropped, and the reader told so; or the connection is not registered.
  pub data Stopped : Link W V → Type 0 where
    dropped :
        {io out : List ℕ} {n : ℕ}
        → Stopped (record {
          conn = some (record {
            write = none;
            cancelation = canceled write_error;
            io_buffer = io;
            swap_buffer = none;
            channel_count = n;
          });
          tasks = [];
          wire = out;
        })
    gone :
        {ts : List (Task W)} {out : List ℕ}
        → Stopped (record { conn = none; tasks = ts; wire = out })

  abbrev pub in_conn : ℕ → Option (Conn W V) → ℕ
  in_conn x none = 0
  in_conn x (some conn) = amount x conn.io_buffer

  abbrev pub in_link : ℕ → Link W V → ℕ
  in_link x s = amount x s.wire + in_tasks x s.tasks + in_conn x s.conn

  Step-Stopped : {s s' : Link W V} → Step s s' → Stopped s → Stopped s'
  unfolding receive trigger_write send_start task_start write_done write_failed close
  Step-Stopped (receives bs) dropped = dropped
  Step-Stopped (receives bs) gone = gone
  Step-Stopped triggers dropped = dropped
  Step-Stopped triggers gone = gone
  Step-Stopped (sends bs) dropped = dropped
  Step-Stopped (sends bs) gone = gone
  Step-Stopped (starts cw) gone = gone
  Step-Stopped (writes cw) gone = gone
  Step-Stopped (fails k cw) gone = gone
  Step-Stopped (waits t) gone = gone
  Step-Stopped closes o = gone

  -- A step with the bytes `bs` leaves the link live, with these bytes more.
  abbrev pub Kept : Link W V → Link W V → List ℕ → Type 0
  Kept s s' bs = Live s' × ((x : ℕ) → in_link x s' ≡ in_link x s + amount x bs)

  Step-Live : {s s' : Link W V} (st : Step s s') → Live s → Kept s s' (message st) ⊎ Stopped s'
  unfolding receive trigger_write send_start task_start write_done write_failed close
  Step-Live (receives bs) (free {io = io}) = inl (free, λ x. omega (arith, amount-append x io bs))
  Step-Live (receives bs) (busy {io = io}) = inl (busy, λ x. omega (arith, amount-append x io bs))
  Step-Live triggers free = inl (busy, λ x. omega arith)
  Step-Live triggers busy = inl (busy, λ x. omega arith)
  Step-Live (sends bs) (free {io = io}) = inl (busy, λ x. omega (arith, amount-append x io bs))
  Step-Live (sends bs) (busy {io = io}) = inl (busy, λ x. omega (arith, amount-append x io bs))
  Step-Live (starts cw) busy = inl (busy, λ x. omega arith)
  Step-Live (writes cw) (busy {io = []} {out = out}) =
      inl (free, λ x. omega (arith, amount-append x out cw.buffer))
  Step-Live (writes cw) (busy {io = b ∷ bs} {out = out}) =
      inl (busy, λ x. omega (arith, amount-append x out cw.buffer))
  Step-Live (fails k cw) (busy {c = submit}) = inr dropped
  Step-Live (fails k cw) (busy {c = running w}) = inr dropped
  Step-Live (fails k cw) (busy {c = canceled r}) = inr dropped
  Step-Live (waits t) busy = inl (busy, λ x. omega arith)
  Step-Live closes l = inr gone

  pub Steps-Stopped : {s s' : Link W V} → Steps s s' → Stopped s → Stopped s'
  Steps-Stopped done o = o
  Steps-Stopped (st ▸ run) o = Steps-Stopped run (Step-Stopped st o)

  -- However the steps interleave, a connection that has a writer is in one of two cases afterwards.
  -- The write half is with the connection or with exactly one task, and every byte that was there or
  -- came up is there as often as before, on the wire, in a task or in the connection. Or the
  -- connection is closed, or the write half was dropped after an error that the reader is told.
  pub Steps-Live :
      {s s' : Link W V} (run : Steps s s') → Live s → Kept s s' (messages run) ⊎ Stopped s'
  Steps-Live done l = inl (l, λ x. omega arith)
  Steps-Live (st ▸ run) l = elim (Step-Live st l) [
    | inr o ↦ inr (Steps-Stopped run o)
    | inl (l', kept) ↦ elim (Steps-Live run l') [
      | inr o ↦ inr o
      | inl (l'', kept') ↦
          inl
            (l'', λ x. omega (arith, kept x, kept' x, amount-append x (message st) (messages run)))
    ]
  ]
