-- ===== src/Tests/Connections.antt =====
-- Connections, the options of SET, and the deletion of everything, at concrete inputs.
use radixox.Common.{
  ℕ, zero, suc, ◌≡◌, ◌≢◌, ◌↔◌, refl, inr, List, [], ◌∷◌, ◌++◌, Bool, true, none, some, Run, ok,
  panic, codes, arith, false, Returns, replicate,
}
use radixox.Command.{Bytes, always, if_not_exists}
use radixox.Command.Options.{parse_set_opts}
use radixox.Frame.{Frame, array, bulk_string}
use radixox.Frame.Sent.{bulk_strings}
use radixox.PubSub.{normal}
use radixox.Expiry
use radixox.Tree.{Tree}
use radixox.Tree.Sweep.{deln_all, free_loop}
use radixox.Tree.Chunks.{free_in_chunks}
use radixox.Tree.Chunks.Same.{free_in_chunks-free_loop}
use radixox.Tree.Sweep.Ends.{Covers, deln_all-Ends}
use radixox.Value.{Value, string}
use radixox.ZSet.{ZSet}
use radixox.Handlers.Options.{parse_set_options}
use radixox.Handlers.Options.Laws.{set_words, set_opts, parse_set_options-set_words}
use radixox.Handlers.Server.{Limits}
use radixox.Handlers.Table.{ping, get_handler}
use radixox.Handlers.Connection.{Action, sends, resp_pong, dispatch}
use radixox.Handlers.Connection.Laws.{dispatch-panics_iff}
use radixox.Handlers.Connection.Buffer.{
  Decoded, incomplete, decoded, waits, leaves, World, serve, handle_buffer,
}
use radixox.Handlers.Connection.Buffer.Laws.{Serves, handle_buffer-ServesAll, handle_buffer-quit}
use radixox.Handlers.{ok_frame}
use radixox.Handlers.Strings.{cmd_set, cmd_get}
use radixox.Handlers.Strings.Laws.{cmd_set-Sets}
use radixox.Tree.Shape.{IsValid}
use radixox.Tests.TwoNodes.{crates, leaf, tree, tree-IsValid, walk_to_ab}
use radixox.Tests.SortedSets.{naturals}

parse_set_options-set_words_example :
    (parse_set_options (set_words (some 60) if_not_exists) ≡ inr (set_opts (some 60) if_not_exists))
    × (parse_set_opts (set_words (some 60) if_not_exists) ≡ some (set_opts (some 60) if_not_exists))
parse_set_options-set_words_example =
    parse_set_options-set_words (some 60) if_not_exists (omega arith)

abbrev args : List Bytes
args = (98 ∷ []) ∷ set_words (some 60) always

abbrev limits : Limits
limits = record { stack = 100; nodes = 100 }

abbrev one : Value (ZSet ℕ)
one = string (49 ∷ [])

abbrev held : Tree (crates (Value (ZSet ℕ)))
held = tree one

get_handler-ping :
    get_handler naturals limits {m = crates (Value (ZSet ℕ))} (codes "PING") ≡ some ping
unfolding get_handler
get_handler-ping = refl

dispatch-panics_iff_example :
    (dispatch (λ b. b) naturals limits {W = ℕ} (codes "PING") [] (normal 0 []) held ≡ panic)
    ↔ (codes "PING" ≡ codes "UNSUBSCRIBE")
dispatch-panics_iff_example =
    dispatch-panics_iff (λ b. b) naturals limits (codes "PING") [] 0 [] held ping get_handler-ping
      refl

-- A decoder that takes a PING off the front for each 1, and a "quit" for each other number.
abbrev by_number : Bytes → Decoded
by_number [] = incomplete
by_number (suc zero ∷ bs) = decoded (array (bulk_strings (codes "PING" ∷ []))) bs
by_number (b ∷ bs) = decoded (array (bulk_strings (codes "quit" ∷ []))) bs

-- The registry and the sockets are the frames that have been sent.
abbrev world : List Frame → World ℕ (List Frame) (crates (Value (ZSet ℕ)))
world sent = record { conn = normal 0 []; tree = held; outer = sent }

abbrev perform :
    Action
    → World ℕ (List Frame) (crates (Value (ZSet ℕ)))
    → Run (Bool × World ℕ (List Frame) (crates (Value (ZSet ℕ))))
perform (sends f) w = ok (true, record w { outer = w.outer ++ f ∷ [] })
perform a w = ok (true, w)

serve_ping :
    (sent : List Frame)
    → Serves by_number perform
        (λ b. b)
        naturals
        limits
        (codes "PING", [])
        (world sent)
        true
        (world (sent ++ resp_pong ∷ []))
unfolding serve dispatch get_handler
serve_ping sent = refl

handle_buffer-ServesAll_example :
    handle_buffer by_number perform (λ b. b) naturals limits 3 (1 ∷ 1 ∷ []) (world [])
    ≡ some (ok (waits [], world (resp_pong ∷ resp_pong ∷ [])))
handle_buffer-ServesAll_example =
    handle_buffer-ServesAll by_number perform (λ b. b) naturals limits
      ((codes "PING", []) ∷ (codes "PING", []) ∷ []) 3 (1 ∷ 1 ∷ []) [] (world [])
      (world (resp_pong ∷ resp_pong ∷ [])) (1 ∷ [], refl, ([], refl, refl))
      (
        world (resp_pong ∷ []),
        serve_ping [],
        (world (resp_pong ∷ resp_pong ∷ []), serve_ping (resp_pong ∷ []), refl),
      )
      (omega arith) refl

handle_buffer-quit_example :
    handle_buffer by_number perform (λ b. b) naturals limits 4 (1 ∷ 2 ∷ 1 ∷ []) (world [])
    ≡ some (ok (leaves (1 ∷ []), world (resp_pong ∷ ok_frame ∷ [])))
handle_buffer-quit_example =
    handle_buffer-quit by_number perform (λ b. b) naturals limits ((codes "PING", []) ∷ []) 4
      (1 ∷ 2 ∷ 1 ∷ []) (2 ∷ 1 ∷ []) (1 ∷ []) (codes "quit") [] (world []) (world (resp_pong ∷ []))
      (world (resp_pong ∷ ok_frame ∷ [])) true (2 ∷ 1 ∷ [], refl, refl)
      (world (resp_pong ∷ []), serve_ping [], refl) (omega arith) refl refl tt refl

none-ne-some {ℓ} : {A : Type ℓ} {a : A} → none ≢ some a
none-ne-some h = cc

held-Covers : Covers (0 ∷ 1 ∷ []) held
held-Covers zero n h = refl
held-Covers (suc zero) n h = refl
held-Covers (suc (suc i)) n h = ground (arith, h)

deln_all-Ends_example :
    (run : Run (ℕ × Tree (crates (Value (ZSet ℕ))))) × (deln_all 2 held ≡ some run)
deln_all-Ends_example = deln_all-Ends 2 held (0 ∷ 1 ∷ []) held-Covers (omega arith)

free_in_chunks-free_loop_example :
    (run : Run (ℕ × Tree (crates (Value (ZSet ℕ))))) × (free_loop 2 (1 ∷ []) 0 held ≡ some run)
    × (free_in_chunks 1 (replicate 3 (λ t. t)) (1 ∷ []) 0 held ≡ some run)
free_in_chunks-free_loop_example =
    free_in_chunks-free_loop 0 3 (1 ∷ []) 0 held (0 ∷ 1 ∷ []) held-Covers (omega arith)

one_string : Expiry.is_expired (leaf one).exp_and_radix 0 ≡ false
unfolding Expiry.is_expired Expiry.exp
one_string = refl

cmd_set-Sets_example : Returns (cmd_set ((97 ∷ 98 ∷ []) ∷ args) held) (λ r.
    (r.0 ≡ ok_frame)
    × (cmd_get ((97 ∷ 98 ∷ []) ∷ []) r.1 ≡ ok (bulk_string (98 ∷ []), r.1))
    × IsValid [] r.1)
cmd_set-Sets_example =
    cmd_set-Sets [] held (97 ∷ 98 ∷ []) (98 ∷ []) (set_words (some 60) always)
      (set_opts (some 60) always) 1 (leaf one) one (tree-IsValid one) (walk_to_ab one) refl refl
      one_string (omega arith) (parse_set_options-set_words (some 60) always (omega arith)).0
      (omega arith)
