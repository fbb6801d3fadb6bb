-- ===== src/PubSub/Writer/Order.antt =====
-- In which order the bytes for a connection reach the socket.
use radixox.Common.{
  ℕ, Bool, true, false, List, [], ◌∷◌, ◌++◌, append_assoc, append-nil, Option, none, some, ◌≡◌, sym,
  ap, ◌∙◌, ◌⊎◌, inl, inr, arith,
}
use radixox.PubSub.{CancelationState, submit, running, canceled, Conn, ConnWriter}
use radixox.PubSub.Writer.{
  Task, spawned, writing, Link, receive, trigger_write, send_start, task_start, write_done,
  write_failed, close, Step, receives, triggers, sends, starts, writes, fails, waits, closes, Steps,
  done, ◌▸◌, message, messages,
}
use radixox.PubSub.Writer.Live.{buffered, Stopped, dropped, gone, Steps-Stopped}

module _ {W : Type 0} where
  -- A task that has not run yet holds bytes.
  abbrev pub delayed : List (Task W) → Bool
  delayed [] = false
  delayed (writing cw ∷ ts) = false
  delayed (spawned cw ∷ ts) = elim cw.buffer [ [] ↦ false | b ∷ bs ↦ true ]

  abbrev pub of_tasks : List (Task W) → List ℕ
  of_tasks [] = []
  of_tasks (t ∷ ts) = buffered t ++ of_tasks ts

module _ {W V : Type 0} where
  -- No bytes come up while a task that holds bytes has not run yet.
  abbrev pub IsPrompt : {s s' : Link W V} → Steps s s' → Type 0
  IsPrompt done = Unit
  IsPrompt (◌▸◌ {s = s} st run) = ((message st ≡ []) ⊎ (delayed s.tasks ≡ false)) × IsPrompt run

  -- A spawned task has no bytes, or is the only one that has.
  pub data InOrder : Link W V → Type 0 where
    free :
        {w : W} {c : CancelationState V} {io out : List ℕ} {n : ℕ}
        → InOrder (record {
          conn = some (record {
            write = some w;
            cancelation = c;
            io_buffer = io;
            swap_buffer = some [];
            channel_count = n;
          });
          tasks = [];
          wire = out;
        })
    at_write :
        {cw : ConnWriter W} {c : CancelationState V} {io out : List ℕ} {n : ℕ}
        → InOrder (record {
          conn = some (record {
            write = none;
            cancelation = c;
            io_buffer = io;
            swap_buffer = none;
            channel_count = n;
          });
          tasks = writing cw ∷ [];
          wire = out;
        })
    sole :
        {w : W} {b : ℕ} {bs : List ℕ} {c : CancelationState V} {out : List ℕ} {n : ℕ}
        → InOrder (record {
          conn = some (record {
            write = none;
            cancelation = c;
            io_buffer = [];
            swap_buffer = none;
            channel_count = n;
          });
          tasks = spawned (record { write = w; buffer = b ∷ bs }) ∷ [];
          wire = out;
        })
    ready :
        {w : W} {c : CancelationState V} {io out : List ℕ} {n : ℕ}
        → InOrder (record {
          conn = some (record {
            write = none;
            cancelation = c;
            io_buffer = io;
            swap_buffer = none;
            channel_count = n;
          });
          tasks = spawned (record { write = w; buffer = [] }) ∷ [];
          wire = out;
        })

  abbrev pub of_conn : Option (Conn W V) → List ℕ
  of_conn none = []
  of_conn (some conn) = conn.io_buffer

  -- The bytes of the connection, the oldest first.
  abbrev pub content : Link W V → List ℕ
  content s = s.wire ++ of_tasks s.tasks ++ of_conn s.conn

  abbrev pub Extends : Link W V → Link W V → List ℕ → Type 0
  Extends s s' bs = InOrder s' × (content s' ≡ content s ++ bs)

  Step-InOrder :
      {s s' : Link W V} (st : Step s s')
      → InOrder s
      → (message st ≡ []) ⊎ (delayed s.tasks ≡ false)
      → Extends s s' (message st) ⊎ Stopped s'
  unfolding receive trigger_write send_start task_start write_done write_failed close
  Step-InOrder (receives bs) free p = inl (free, simp append_assoc)
  Step-InOrder (receives bs) at_write p = inl (at_write, simp append_assoc)
  Step-InOrder (receives bs) sole (inl e) = rw e (inl (sole, simp append-nil))
  Step-InOrder (receives bs) sole (inr e) = absurd (ground (arith, e))
  Step-InOrder (receives bs) ready p = inl (ready, simp append_assoc)
  Step-InOrder triggers (free {io = []}) p = inl (ready, simp append-nil)
  Step-InOrder triggers (free {io = b ∷ bs}) p = inl (sole, simp append-nil)
  Step-InOrder triggers at_write p = inl (at_write, simp append-nil)
  Step-InOrder triggers sole p = inl (sole, simp append-nil)
  Step-InOrder triggers ready p = inl (ready, simp append-nil)
  Step-InOrder (sends bs) free p = inl (at_write, simp (append_assoc, append-nil))
  Step-InOrder (sends bs) at_write p = inl (at_write, simp append_assoc)
  Step-InOrder (sends bs) sole (inl e) = rw e (inl (sole, simp append-nil))
  Step-InOrder (sends bs) sole (inr e) = absurd (ground (arith, e))
  Step-InOrder (sends bs) ready p = inl (ready, simp append_assoc)
  Step-InOrder (starts cw) sole p = inl (at_write, simp append-nil)
  Step-InOrder (starts cw) ready p = inl (at_write, simp append-nil)
  Step-InOrder (writes cw) (at_write {io = []}) p = inl (free, simp (append_assoc, append-nil))
  Step-InOrder (writes cw) (at_write {io = b ∷ bs}) p = inl (ready, simp (append_assoc, append-nil))
  Step-InOrder (fails k cw) (at_write {c = submit}) p = inr dropped
  Step-InOrder (fails k cw) (at_write {c = running w}) p = inr dropped
  Step-InOrder (fails k cw) (at_write {c = canceled r}) p = inr dropped
  Step-InOrder (waits t) at_write p = inl (at_write, simp append-nil)
  Step-InOrder (waits t) sole p = inl (sole, simp append-nil)
  Step-InOrder (waits t) ready p = inl (ready, simp append-nil)
  Step-InOrder closes o p = inr gone

  -- Unless bytes come up while a spawned task that holds bytes has not run yet, the bytes reach the
  -- socket in the order in which they came up; or the connection is closed or has lost its writer.
  pub Steps-InOrder :
      {s s' : Link W V} (run : Steps s s')
      → InOrder s
      → IsPrompt run
      → Extends s s' (messages run) ⊎ Stopped s'
  Steps-InOrder {s = s} done o p = inl (o, sym (append-nil (content s)))
  Steps-InOrder {s = s} (st ▸ run) o (p, ps) = elim (Step-InOrder st o p) [
    | inr stop ↦ inr (Steps-Stopped run stop)
    | inl (o', e) ↦ elim (Steps-InOrder run o' ps) [
      | inr stop ↦ inr stop
      | inl (o'', e') ↦ inl (
        o'',
        e' ∙ ap (λ bs. bs ++ messages run) e ∙ append_assoc (content s) (message st) (messages run),
      )
    ]
  ]
