-- ===== src/Tests/Publishing.antt =====
-- Connections that subscribe and receive messages, and the laws of the registry and of the writing
-- tasks at concrete inputs. Write halves and wakers are numbers.
use radixox.Common.{
  ℕ, zero, suc, ◌<◌, ◌^◌, ◌≡◌, refl, inl, inr, ◌⊎◌, List, [], ◌∷◌, some, arith, get_elem?, Returns,
}
use radixox.GenArena
use radixox.GenArena.{Key, Slot, GenArena}
use radixox.GenArena.Laws.{IsValid, new-IsValid}
use radixox.PubSub.{submit, Conn, normal, pub_sub, new_conn}
use radixox.PubSub.Writer.{
  Link, receives, triggers, sends, starts, writes, Steps, done, ◌▸◌, messages, receive,
  trigger_write, task_start, write_done, send_start,
}
use radixox.PubSub.Writer.Live.{Stopped, Kept, free, Steps-Live}
use radixox.PubSub.Writer.Order.{InOrder, IsPrompt, Extends, Steps-InOrder}
use radixox.PubSub.Writer.Order
use radixox.PubSub.Writer.Drain.{Drained, run_tasks, Live-Drained, trigger_write-swaps}
use radixox.PubSub.Registry.{SubRegistry, subscribe, unsubscribe, publish_encode, cleanup}
use radixox.PubSub.Registry.Subscribe.{Enters, subscribe-Enters}
use radixox.PubSub.Registry.Publish.{Delivers, publish_encode-Delivers}
use radixox.PubSub.Registry.Cleanup.{Forgets, cleanup-Forgets}

-- The write half 7, and a buffer.
abbrev idle : List ℕ → List ℕ → Link ℕ ℕ
idle io out = record {
  conn = some (record {
    write = some 7;
    cancelation = submit;
    io_buffer = io;
    swap_buffer = some [];
    channel_count = 1;
  });
  tasks = [];
  wire = out;
}

abbrev empty : SubRegistry ℕ ℕ
empty = record {
  conn_arena = record { slots = []; free_head = 4294967295; len = 0 };
  conn_map = [];
}

abbrev key : Key
key = record { idx = 0; generation = 3 }

-- A connection that has subscribed to "a" twice.
abbrev one : SubRegistry ℕ ℕ
one = record {
  conn_arena = record {
    slots =
        record {
          data_held = some (record (new_conn 7 [] submit) { channel_count = 2 });
          generation = 3;
          next_free = 0;
        }
        ∷ [];
    free_head = 4294967295;
    len = 1;
  };
  conn_map = (97 ∷ [], key ∷ key ∷ []) ∷ [];
}

one_generations :
    (i : ℕ) (s : Slot (Conn ℕ ℕ))
    → get_elem? one.conn_arena.slots i ≡ some s
    → s.generation < 2 ^ 32
one_generations zero s e = ground (arith, e)
one_generations (suc i) s e = ground (arith, e)

one_IsValid : IsValid [] one.conn_arena
one_IsValid = record { chain = refl; once = tt; small = omega arith; generations = one_generations }

-- The message 2 comes up while the message 1 waits for its task.
abbrev overtaken : Steps (idle (1 ∷ []) []) (idle [] (2 ∷ 1 ∷ []))
unfolding receive trigger_write task_start write_done
overtaken = triggers ▸ receives (2 ∷ []) ▸ starts _ ▸ writes _ ▸ starts _ ▸ writes _ ▸ done

Steps-Live_example :
    Kept (idle (1 ∷ []) []) (idle [] (2 ∷ 1 ∷ [])) (messages overtaken)
    ⊎ Stopped (idle [] (2 ∷ 1 ∷ []))
Steps-Live_example = Steps-Live overtaken free

-- The message 2 comes up while the message 1 is written.
abbrev queued : Steps (idle [] []) (idle [] (1 ∷ 2 ∷ []))
unfolding receive send_start task_start write_done
queued = sends (1 ∷ []) ▸ receives (2 ∷ []) ▸ writes _ ▸ starts _ ▸ writes _ ▸ done

queued-IsPrompt : IsPrompt queued
unfolding queued receive send_start task_start write_done
queued-IsPrompt = (inr refl, (inr refl, (inr refl, (inl refl, (inr refl, tt)))))

Steps-InOrder_example :
    Extends (idle [] []) (idle [] (1 ∷ 2 ∷ [])) (messages queued) ⊎ Stopped (idle [] (1 ∷ 2 ∷ []))
Steps-InOrder_example = Steps-InOrder queued Order.free queued-IsPrompt

Live-Drained_example :
    Drained (idle (1 ∷ 2 ∷ []) []) (run_tasks 4 (trigger_write (idle (1 ∷ 2 ∷ []) [])))
Live-Drained_example = Live-Drained free

trigger_write-swaps_example :
    (run : Steps (idle (1 ∷ []) []) (idle [] (2 ∷ 1 ∷ []))) × (messages run ≡ 2 ∷ [])
trigger_write-swaps_example = trigger_write-swaps 1 [] (2 ∷ [])

subscribe-Enters_example :
    Returns (subscribe empty (normal 7 []) (97 ∷ [])) (Enters empty 7 [] (97 ∷ []))
subscribe-Enters_example = subscribe-Enters [] empty 7 [] (97 ∷ []) new-IsValid (omega arith) tt

publish_encode-Delivers_example :
    Returns (publish_encode one ((97 ∷ []) ∷ (98 ∷ []) ∷ [])) (Delivers one (97 ∷ []) (98 ∷ []))
publish_encode-Delivers_example =
    publish_encode-Delivers one (97 ∷ []) (98 ∷ []) [] (omega arith) (omega arith)

cleanup-Forgets_example : Forgets one key (cleanup one key)
cleanup-Forgets_example = cleanup-Forgets [] one key one_IsValid (refl, tt)

-- One channel is left, of two subscriptions; "b" was never subscribed to.
unsubscribe_other : (unsubscribe one (pub_sub key) ((98 ∷ []) ∷ (99 ∷ []) ∷ [])).2 ≡ normal 7 []
unfolding unsubscribe GenArena.get GenArena.update GenArena.remove
unsubscribe_other = refl
