-- ===== src/PubSub/Writer/Drain.antt =====
-- What becomes of the bytes for a connection once no more come up.
use radixox.Common.{
  ℕ, zero, suc, List, [], ◌∷◌, ◌++◌, append-nil, Option, none, some, ◌≡◌, refl, arith,
}
use radixox.PubSub.{CancelationState, Conn, ConnWriter}
use radixox.PubSub.Writer.{
  Task, spawned, writing, Link, receive, trigger_write, task_start, write_done, receives, triggers,
  starts, writes, Steps, done, ◌▸◌, messages,
}
use radixox.PubSub.Writer.Live.{Live, free, busy, amount, amount-append, in_link}

module _ {W V : Type 0} where
  -- The first task runs, and its write succeeds.
  abbrev pub run_task : Link W V → List (Task W) → Link W V
  run_task s [] = s
  run_task s (spawned cw ∷ ts) = task_start cw (record s { tasks = ts })
  run_task s (writing cw ∷ ts) = write_done cw (record s { tasks = ts })

  -- The tasks run for that many steps, and nothing else happens.
  abbrev pub run_tasks : ℕ → Link W V → Link W V
  run_tasks zero s = s
  run_tasks (suc n) s = run_tasks n (run_task s s.tasks)

  -- Such a run is a run of the server in which no bytes come up.
  pub run_tasks-Steps :
      (n : ℕ) (c : Option (Conn W V)) (ts : List (Task W)) (out : List ℕ)
      → (run : Steps
          (record { conn = c; tasks = ts; wire = out })
          (run_tasks n (record { conn = c; tasks = ts; wire = out })))
        × (messages run ≡ [])
  run_tasks-Steps zero c ts out = (done, refl)
  run_tasks-Steps (suc n) c [] out = run_tasks-Steps n c [] out
  run_tasks-Steps (suc n) c (spawned cw ∷ ts) out =
      let next = task_start cw (record { conn = c; tasks = ts; wire = out }) in
      let (run, e) = run_tasks-Steps n next.conn next.tasks next.wire in (starts cw ▸ run, e)
  run_tasks-Steps (suc n) c (writing cw ∷ ts) out =
      let next = write_done cw (record { conn = c; tasks = ts; wire = out }) in
      let (run, e) = run_tasks-Steps n next.conn next.tasks next.wire in (writes cw ▸ run, e)

  -- The connection has its write half, and nothing is left to write.
  pub data Flushed : Link W V → Type 0 where
    flushed :
        {w : W} {c : CancelationState V} {out : List ℕ} {n : ℕ}
        → Flushed (record {
          conn = some (record {
            write = some w;
            cancelation = c;
            io_buffer = [];
            swap_buffer = some [];
            channel_count = n;
          });
          tasks = [];
          wire = out;
        })

  -- The connection is flushed, with every byte of `s` on the wire, as often as it was there.
  pub record Drained (s s' : Link W V) : Type 0 where
    pub flush : Flushed s'
    pub sent : (x : ℕ) → amount x s'.wire ≡ in_link x s

  -- The one task of a link whose write half is taken.
  abbrev taken : Task W → CancelationState V → List ℕ → List ℕ → ℕ → Link W V
  taken t c io out n = record {
    conn = some (record {
      write = none;
      cancelation = c;
      io_buffer = io;
      swap_buffer = none;
      channel_count = n;
    });
    tasks = t ∷ [];
    wire = out;
  }

  writing-Drained :
      (cw : ConnWriter W) (c : CancelationState V) (io out : List ℕ) (n : ℕ)
      → Drained (taken (writing cw) c io out n) (run_tasks 3 (taken (writing cw) c io out n))
        × Drained (taken (writing cw) c io out n) (run_tasks 4 (taken (writing cw) c io out n))
  unfolding task_start write_done
  writing-Drained cw c [] out n = (
    record { flush = flushed; sent = λ x. omega (arith, amount-append x out cw.buffer) },
    record { flush = flushed; sent = λ x. omega (arith, amount-append x out cw.buffer) },
  )
  writing-Drained cw c (b ∷ bs) out n = (
    record {
      flush = flushed;
      sent = λ x.
          omega (arith, amount-append x out cw.buffer, amount-append x (out ++ cw.buffer) (b ∷ bs));
    },
    record {
      flush = flushed;
      sent = λ x.
          omega (arith, amount-append x out cw.buffer, amount-append x (out ++ cw.buffer) (b ∷ bs));
    },
  )

  spawned-Drained :
      (cw : ConnWriter W) (c : CancelationState V) (io out : List ℕ) (n : ℕ)
      → Drained (taken (spawned cw) c io out n) (run_tasks 4 (taken (spawned cw) c io out n))
  unfolding task_start
  spawned-Drained cw c io out n =
      let (drained, _) = writing-Drained (record cw { buffer = io }) c cw.buffer out n in
      record { flush = drained.flush; sent = λ x. omega (arith, drained.sent x) }

  -- From every state in which the connection is not closed and has not lost its writer, the tasks empty
  -- the buffers once `trigger_write` has been called: after four steps, in each of which the first task
  -- runs and its write succeeds, nothing is left to write, the connection has its write half again, and
  -- every byte that was on the wire, in a task or in the connection is on the wire, as often as it was
  -- there.
  pub Live-Drained : {s : Link W V} → Live s → Drained s (run_tasks 4 (trigger_write s))
  unfolding trigger_write
  Live-Drained (free {w = w} {c = c} {io = io} {out = out} {n = n}) =
      let drained = spawned-Drained (record { write = w; buffer = io }) c [] out n in
      record { flush = drained.flush; sent = λ x. omega (arith, drained.sent x) }
  Live-Drained (busy {t = spawned cw} {c = c} {io = io} {out = out} {n = n}) =
      spawned-Drained cw c io out n
  Live-Drained (busy {t = writing cw} {c = c} {io = io} {out = out} {n = n}) =
      (writing-Drained cw c io out n).1

  -- Two messages of which the second comes up before the task for the first has run reach the socket
  -- in the opposite order.
  pub trigger_write-swaps :
      {w : W} {c : CancelationState V} {out : List ℕ} {n : ℕ} (b : ℕ) (first second : List ℕ)
      → (run : Steps
          (record {
            conn = some (record {
              write = some w;
              cancelation = c;
              io_buffer = b ∷ first;
              swap_buffer = some [];
              channel_count = n;
            });
            tasks = [];
            wire = out;
          })
          (record {
            conn = some (record {
              write = some w;
              cancelation = c;
              io_buffer = [];
              swap_buffer = some [];
              channel_count = n;
            });
            tasks = [];
            wire = (out ++ second) ++ b ∷ first;
          }))
        × (messages run ≡ second)
  unfolding receive trigger_write task_start write_done
  trigger_write-swaps b first second = (
    triggers ▸ receives second ▸ starts _ ▸ writes _ ▸ starts _ ▸ writes _ ▸ done,
    append-nil second,
  )
