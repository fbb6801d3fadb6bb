-- ===== src/Handlers/Options/Laws.antt =====
-- The two parsers of the options of SET: that of radixox/src/bin/resp.rs and that of
-- radixox-lib/src/cmd.rs.
use radixox.Common.{
  ℕ, ◌^◌, ◌<◌, ◌≡◌, refl, sym, ap, ◌∙◌, false, ◌==◌, List, [], ◌∷◌, Option, none, some, inr, length,
  decimal, Digits, Digits-decimal, value, value-decimal, length-decimal_pos, codes, arith,
}
use radixox.Value.Laws.{unsigned-Digits}
use radixox.Command.{
  Bytes, SetOpts, SetCondition, Duration, always, if_not_exists, if_exists, from_secs,
}
use radixox.Command.Args.Laws.{arg_u64-decimal_iff}
use radixox.Command.Args.{arg_u64}
use radixox.Command.Options
use radixox.Command.Options.{parse_set_opts}
use radixox.Handlers.Numbers.{parse_u64}
use radixox.Handlers.Options.{parse_set_options, opts_loop}

-- The words that ask for a condition, and for a time in seconds.
abbrev pub condition_words : SetCondition → List Bytes
condition_words always = []
condition_words if_not_exists = codes "NX" ∷ []
condition_words if_exists = codes "XX" ∷ []

abbrev pub set_words : Option ℕ → SetCondition → List Bytes
set_words none c = condition_words c
set_words (some secs) c = codes "EX" ∷ decimal secs ∷ condition_words c

abbrev pub set_opts : Option ℕ → SetCondition → SetOpts
set_opts none c = record { ttl = none; condition = c }
set_opts (some secs) c = record { ttl = some (from_secs secs); condition = c }

abbrev pub InU64 : Option ℕ → Type 0
InU64 none = Unit
InU64 (some secs) = secs < 2 ^ 64

parse_u64-Digits :
    (bs : List ℕ)
    → Digits bs
    → 0 < length bs
    → value 0 bs < 2 ^ 64
    → parse_u64 bs ≡ some (value 0 bs)
unfolding parse_u64
parse_u64-Digits [] d h k = elim h [ ]
parse_u64-Digits (b ∷ bs) d h k =
    let no_sign : (b == b'+') ≡ false = ground (arith, d.0) in
    rw (no_sign, unsigned-Digits (b ∷ bs) d h) (ground (arith, k))

-- A number of 64 bits is read back from its decimal form.
pub parse_u64-decimal : (n : ℕ) → n < 2 ^ 64 → parse_u64 (decimal n) ≡ some n
parse_u64-decimal n h =
    parse_u64-Digits (decimal n) (Digits-decimal n) (length-decimal_pos n)
      (omega (arith, value-decimal n))
    ∙ ap some (value-decimal n)

arg_u64-decimal : (n : ℕ) → n < 2 ^ 64 → arg_u64 (decimal n) ≡ some n
arg_u64-decimal n h =
    (arg_u64-decimal_iff (decimal n) n).1
      (length-decimal_pos n, Digits-decimal n, sym (value-decimal n), h)

-- Behind a time, if there is one, the word of the condition.
abbrev timed : Option Duration → SetCondition → SetOpts
timed ttl c = record { ttl = ttl; condition = c }

conditions-read :
    (ttl : Option Duration) (c : SetCondition)
    → (opts_loop (timed ttl always) (condition_words c) ≡ inr (timed ttl c))
      × (Options.opts_loop (timed ttl always) (condition_words c) ≡ some (timed ttl c))
unfolding opts_loop Options.opts_loop
conditions-read ttl always = (refl, refl)
conditions-read ttl if_not_exists = (refl, refl)
conditions-read ttl if_exists = (refl, refl)

-- Both parsers read a time in seconds of 64 bits and a condition, each of them or none, from its words.
pub parse_set_options-set_words :
    (secs : Option ℕ) (c : SetCondition)
    → InU64 secs
    → (parse_set_options (set_words secs c) ≡ inr (set_opts secs c))
      × (parse_set_opts (set_words secs c) ≡ some (set_opts secs c))
unfolding parse_set_options parse_set_opts opts_loop Options.opts_loop
parse_set_options-set_words none c h = conditions-read none c
parse_set_options-set_words (some secs) c h =
    let (here, there) = conditions-read (some (from_secs secs)) c in
    (rw (parse_u64-decimal secs h) here, rw (arg_u64-decimal secs h) there)
