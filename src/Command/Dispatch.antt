-- ===== src/Command/Dispatch.antt =====
-- `dispatch` of radixox-lib/src/cmd.rs: the command's name is told by its length and a few bytes, in
-- which the bit 0x20 is set. The parser of floating-point numbers, `arg_f64`, is a parameter.
pub mod Laws
use radixox.Common.{
  ℕ, zero, suc, ◌+◌, ◌-◌, ◌%◌, Bool, true, false, ◌&&◌, ltb, ◌==◌, if◌then◌else◌, List, [], ◌∷◌,
  Option, none, some, length, get_or, get_elem?, drop, ℤ,
}
use radixox.Command.{
  Bytes, Cmd, SetOpts, always, if_not_exists, from_secs, from_millis, default_opts, ping, quit,
  db_size, flush_db, echo, get, type_of, keys, ttl, pttl, persist, incr, decr, select, set, m_get,
  del, unlink, exists, m_set, expire, incr_by, decr_by, h_set, h_get, h_exists, h_get_all, h_len,
  h_keys, h_vals, h_del, hm_get, h_incr_by, s_add, s_rem, s_is_member, s_card, s_members, s_pop,
  z_add, z_card, z_range, z_score, z_rem, z_incr_by, subscribe, unsubscribe, publish,
}
use radixox.Command.Args.{arg_u64, arg_i64, ◌>>=◌}
use radixox.Command.Options.{lower, parse_set_opts}
use radixox.Command.Words.{
  arg, letter, need, pairs, odd_args, on_d, on_e, on_f, on_g, on_h, on_i, on_k, on_m, on_p, on_q,
}

module _ {F : Type 0} (arg_f64 : Bytes → Option F) where
  abbrev pub scored : List Bytes → Option (List (F × Bytes))
  scored [] = some []
  scored (a ∷ []) = none
  scored (a ∷ b ∷ args) = do x ← arg_f64 a; xs ← scored args; some ((x, b) ∷ xs)

  abbrev pub set_ex : List Bytes → Option (Cmd F)
  unfolding arg_u64
  set_ex args = need args 3 (do
    n ← arg_u64 (arg args 1)
    some (set (arg args 0) (arg args 2) (record { ttl = some (from_secs n); condition = always })))

  abbrev pub set_nx : List Bytes → Option (Cmd F)
  set_nx args =
      need args 2
        (some (set (arg args 0) (arg args 1) (record { ttl = none; condition = if_not_exists })))

  unfoldable pub on_s : Bytes → List Bytes → Option (Cmd F)
  unfolding arg_u64 parse_set_opts
  on_s cmd args =
      if length cmd == 3
      then need args 2
          (do opts ← parse_set_opts (drop 2 args); some (set (arg args 0) (arg args 1) opts))
      else if length cmd == 4
      then (if letter cmd 1 == b'a'
          then need args 2 (some (s_add (arg args 0) (drop 1 args)))
          else if letter cmd 1 == b'r'
          then need args 2 (some (s_rem (arg args 0) (drop 1 args)))
          else if letter cmd 1 == b'p'
          then need args 1 (some (s_pop (arg args 0) (get_elem? args 1 >>= arg_u64)))
          else none)
      else if length cmd == 5
      then (if letter cmd 1 == b'c'
          then need args 1 (some (s_card (arg args 0)))
          else if letter cmd 1 == b'e'
          then (if letter cmd 3 == b'e'
              then set_ex args
              else if letter cmd 3 == b'n'
              then set_nx args
              else none)
          else none)
      else if length cmd == 6
      then need args 1 (do n ← arg_u64 (arg args 0); some (select n))
      else if length cmd == 8
      then need args 1 (some (s_members (arg args 0)))
      else if length cmd == 9
      then (if letter cmd 1 == b'i'
          then need args 2 (some (s_is_member (arg args 0) (arg args 1)))
          else if letter cmd 1 == b'u'
          then need args 1 (some (subscribe args))
          else none)
      else none

  unfoldable pub on_t : Bytes → List Bytes → Option (Cmd F)
  on_t cmd args =
      if length cmd == 3
      then need args 1 (some (ttl (arg args 0)))
      else if length cmd == 4
      then need args 1 (some (type_of (arg args 0)))
      else none

  unfoldable pub on_u : Bytes → List Bytes → Option (Cmd F)
  on_u cmd args =
      if length cmd == 6
      then need args 1 (some (unlink args))
      else if length cmd == 11
      then some (unsubscribe args)
      else none

  abbrev pub with_scores : Option Bytes → Bool
  with_scores none = false
  with_scores (some s) = length s == 10 && letter s 0 == b'w'

  unfoldable pub on_z : Bytes → List Bytes → Option (Cmd F)
  unfolding arg_i64
  on_z cmd args =
      if length cmd == 4
      then (if letter cmd 1 == b'a'
          then odd_args args (do xs ← scored (drop 1 args); some (z_add (arg args 0) xs))
          else if letter cmd 1 == b'r'
          then need args 2 (some (z_rem (arg args 0) (drop 1 args)))
          else none)
      else if length cmd == 5
      then need args 1 (some (z_card (arg args 0)))
      else if length cmd == 6
      then (if letter cmd 1 == b'r'
          then need args 3 (do
            start ← arg_i64 (arg args 1)
            stop ← arg_i64 (arg args 2)
            some (z_range (arg args 0) start stop (with_scores (get_elem? args 3))))
          else if letter cmd 1 == b's'
          then need args 2 (some (z_score (arg args 0) (arg args 1)))
          else none)
      else if length cmd == 7
      then need args 3
          (do delta ← arg_f64 (arg args 1); some (z_incr_by (arg args 0) delta (arg args 2)))
      else none

  -- The handler of each first letter.
  by_letter : ℕ → Bytes → List Bytes → Option (Cmd F)
  unfolding on_d on_e on_f on_g on_h on_i on_k on_m on_p on_q on_s on_t on_u on_z
  by_letter c cmd args =
      if c == b'd'
      then on_d cmd args
      else if c == b'e'
      then on_e cmd args
      else if c == b'f'
      then on_f cmd args
      else if c == b'g'
      then on_g cmd args
      else if c == b'h'
      then on_h cmd args
      else if c == b'i'
      then on_i cmd args
      else if c == b'k'
      then on_k cmd args
      else if c == b'm'
      then on_m cmd args
      else if c == b'p'
      then on_p cmd args
      else if c == b'q'
      then on_q cmd args
      else if c == b's'
      then on_s cmd args
      else if c == b't'
      then on_t cmd args
      else if c == b'u'
      then on_u cmd args
      else if c == b'z'
      then on_z cmd args
      else none

  -- `from_slice` calls it with a name at least.
  unfoldable pub dispatch : List Bytes → Option (Cmd F)
  unfolding by_letter
  dispatch [] = none
  dispatch (cmd ∷ args) = if ltb (length cmd) 3 then none else by_letter (letter cmd 0) cmd args
