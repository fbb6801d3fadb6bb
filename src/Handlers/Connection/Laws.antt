-- ===== src/Handlers/Connection/Laws.antt =====
-- The commands that depend on the state of the connection, and which of them panics.
use radixox.Common.{
  ℕ, ◌≡◌, ◌≢◌, ◌↔◌, refl, sym, ap, ◌∙◌, Bool, true, false, not, ◌&&◌, ◌||◌, Bool-cases, inl, inr,
  List, [], ◌∷◌, some, ok, panic, same_bytes, same_bytes_eq, codes, arith,
}
use radixox.Command.{Bytes}
use radixox.Hash.Entries.{find}
use radixox.PubSub.{normal}
use radixox.Tree.{Crates, Tree}
use radixox.Value.{Value}
use radixox.ZSet.{ZSet}
use radixox.ZSet.Entries.{Floats}
use radixox.Handlers.Server.{Limits}
use radixox.Handlers.Table.{
  Handler, static, args_only, on_data, data_only, async, ping, quit, subscribe, unsubscribe,
  publish, table, get_handler, run_handler,
}
use radixox.Frame.{Frame}
use radixox.Handlers.Connection.{dispatch, when_normal, unknown}

some_inj {ℓ} : {A : Type ℓ} {a b : A} → some a ≡ some b → a ≡ b
some_inj h = cc

ok-ne-panic : {A : Type 0} (a : A) → ok a ≢ panic
ok-ne-panic a h = cc

module _ {V : Type 0} {m : Crates V} where
  -- The handlers that depend on the state of the connection.
  abbrev pub is_sensitive : Handler m → Bool
  is_sensitive ping = true
  is_sensitive quit = true
  is_sensitive subscribe = true
  is_sensitive unsubscribe = true
  is_sensitive publish = true
  is_sensitive h = false

  abbrev pub is_unsubscribe : Handler m → Bool
  is_unsubscribe unsubscribe = true
  is_unsubscribe h = false

  -- In the list, that handler stands under the name alone.
  abbrev only_under : Bytes → List (Bytes × Handler m) → Bool
  only_under name [] = true
  only_under name (e ∷ es) = (not (is_unsubscribe e.1) || same_bytes e.0 name) && only_under name es

  find-only :
      (name cmd : Bytes) (h : Handler m) (es : List (Bytes × Handler m))
      → only_under name es ≡ true
      → find cmd es ≡ some h
      → is_unsubscribe h ≡ true
      → cmd ≡ name
  find-only name cmd h [] only found un = absurd (ground (arith, found))
  find-only name cmd h (e ∷ es) only found un = elim (Bool-cases (same_bytes cmd e.0)) [
    | inl hit ↦
        let one : some e.1 ≡ some h = sym (rw hit refl) ∙ found in
        let kind : is_unsubscribe e.1 ≡ true = ap is_unsubscribe (some_inj one) ∙ un in
        same_bytes_eq cmd e.0 hit ∙ same_bytes_eq e.0 name (ground (arith, only, kind))
    | inr miss ↦ find-only name cmd h es (ground (arith, only)) (ground (arith, found, miss)) un
  ]

module _ {V : Type 0} {m : Crates V} where
  when_normal-panics :
      (other : Frame) (h : Handler m) (args : List Bytes) (t : Tree m)
      → is_sensitive h ≡ true
      → (when_normal other (some h) args t ≡ panic) ↔ (is_unsubscribe h ≡ true)
  unfolding run_handler
  when_normal-panics other (static f) args t s = absurd (ground (arith, s))
  when_normal-panics other (args_only f) args t s = absurd (ground (arith, s))
  when_normal-panics other (on_data f) args t s = absurd (ground (arith, s))
  when_normal-panics other (data_only f) args t s = absurd (ground (arith, s))
  when_normal-panics other (async c) args t s = absurd (ground (arith, s))
  when_normal-panics other ping args t s =
      (λ p. absurd (ok-ne-panic _ p), λ p. absurd (ground (arith, p)))
  when_normal-panics other quit args t s =
      (λ p. absurd (ok-ne-panic _ p), λ p. absurd (ground (arith, p)))
  when_normal-panics other subscribe args t s =
      (λ p. absurd (ok-ne-panic _ p), λ p. absurd (ground (arith, p)))
  when_normal-panics other unsubscribe args t s = (λ p. refl, λ p. refl)
  when_normal-panics other publish args t s =
      (λ p. absurd (ok-ne-panic _ p), λ p. absurd (ground (arith, p)))

module _ {F : Type 0} (lossy : Bytes → Bytes) (fl : Floats F) (limits : Limits) where
  get_handler-unsubscribe :
      {m : Crates (Value (ZSet F))} (cmd : Bytes) (h : Handler m)
      → get_handler fl limits cmd ≡ some h
      → (is_unsubscribe h ≡ true) ↔ (cmd ≡ codes "UNSUBSCRIBE")
  unfolding get_handler
  get_handler-unsubscribe cmd h found = (
    find-only (codes "UNSUBSCRIBE") cmd h (table fl limits) refl found,
    λ e. ap is_unsubscribe (some_inj (sym found ∙ ap (λ c. find c (table fl limits)) e)),
  )

  -- In a connection without subscriptions, a command that depends on the state of the connection
  -- panics, by reaching a handler that is said to be unreachable, exactly if it is UNSUBSCRIBE.
  pub dispatch-panics_iff :
      {W : Type 0} {m : Crates (Value (ZSet F))} (cmd : Bytes) (args : List Bytes) (write : W)
      (buf : List ℕ) (t : Tree m) (h : Handler m)
      → get_handler fl limits cmd ≡ some h
      → is_sensitive h ≡ true
      → (dispatch lossy fl limits cmd args (normal write buf) t ≡ panic)
        ↔ (cmd ≡ codes "UNSUBSCRIBE")
  unfolding dispatch
  dispatch-panics_iff cmd args write buf t h found s =
      let step = ap (λ o. when_normal (unknown lossy cmd) o args t) found in
      let here = when_normal-panics (unknown lossy cmd) h args t s in
      let name = get_handler-unsubscribe cmd h found in
      (λ p. name.0 (here.0 (sym step ∙ p)), λ e. step ∙ here.1 (name.1 e))
