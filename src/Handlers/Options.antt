-- ===== src/Handlers/Options.antt =====
-- The options of SET: `parse_set_options` of radixox/src/bin/resp.rs. `SetOptions` has the fields of
-- `SetOpts`.
pub mod Laws
use radixox.Common.{
  ℕ, ◌-◌, ◌+◌, Bool, true, false, ◌&&◌, ltb, leb, if◌then◌else◌, List, [], ◌∷◌, Option, none, some,
  ◌⊎◌, inl, inr, map, same_bytes, codes,
}
use radixox.Command.{
  Bytes, SetOpts, Duration, if_not_exists, if_exists, from_secs, from_millis, default_opts,
}
use radixox.Frame.{Frame, error}
use radixox.Handlers.{not_integer}
use radixox.Handlers.Numbers.{parse_u64}

-- `u8::to_ascii_uppercase`
abbrev pub upper : ℕ → ℕ
upper b = if leb b'a' b && leb b b'z' then b - 32 else b

-- `eq_ignore_ascii_case`, with a word in capitals
abbrev pub is_word : Bytes → Bytes → Bool
is_word word b = same_bytes (map upper b) word

abbrev pub syntax_error : Frame
syntax_error = error (codes "ERR syntax error")

-- The loop, from an option on. A word that is no option is skipped.
unfoldable pub opts_loop : SetOpts → List Bytes → Frame ⊎ SetOpts
opts_loop opts [] = inr opts
opts_loop opts (s ∷ []) =
    if is_word (codes "EX") s
    then inl syntax_error
    else if is_word (codes "PX") s
    then inl syntax_error
    else if is_word (codes "NX") s
    then inr (record opts { condition = if_not_exists })
    else if is_word (codes "XX") s
    then inr (record opts { condition = if_exists })
    else inr opts
opts_loop opts (s ∷ arg ∷ args) =
    let timed : (ℕ → Duration) → Option ℕ → Frame ⊎ SetOpts = λ unit o. elim o [
      | none ↦ inl not_integer
      | some n ↦ opts_loop (record opts { ttl = some (unit n) }) args
    ] in
    let nx = opts_loop (record opts { condition = if_not_exists }) (arg ∷ args) in
    let xx = opts_loop (record opts { condition = if_exists }) (arg ∷ args) in
    let skip = opts_loop opts (arg ∷ args) in
    if is_word (codes "EX") s
    then timed from_secs (parse_u64 arg)
    else if is_word (codes "PX") s
    then timed from_millis (parse_u64 arg)
    else if is_word (codes "NX") s
    then nx
    else if is_word (codes "XX") s
    then xx
    else skip

unfoldable pub parse_set_options : List Bytes → Frame ⊎ SetOpts
unfolding opts_loop
parse_set_options args = opts_loop default_opts args
