-- ===== src/Command/Words.antt =====
-- The commands of radixox-lib/src/cmd.rs from D to Q, each group with the tests of `dispatch` on the
-- name's length and bytes.
use radixox.Common.{
  ℕ, ◌-◌, ◌%◌, ltb, ◌==◌, if◌then◌else◌, List, [], ◌∷◌, Option, none, some, length, get_or,
  get_elem?, drop,
}
use radixox.Command.{
  Bytes, Cmd, from_secs, from_millis, ping, quit, db_size, flush_db, echo, get, keys, pttl, persist,
  incr, decr, m_get, del, exists, m_set, expire, incr_by, decr_by, h_set, h_get, h_exists,
  h_get_all, h_len, h_keys, h_vals, h_del, hm_get, h_incr_by, publish,
}
use radixox.Command.Args.{arg_u64, arg_i64, ◌>>=◌}
use radixox.Command.Options.{lower}

-- `args[i]`, where `need!` or the parity has shown that it is there
abbrev pub arg : List Bytes → ℕ → Bytes
arg args i = get_or args i []

-- `cmd[i] | 0x20`
abbrev pub letter : Bytes → ℕ → ℕ
letter cmd i = lower (get_or cmd i 0)

-- `need!(n)`, and then the command
abbrev pub need {ℓ} : {A : Type ℓ} → List Bytes → ℕ → Option A → Option A
need args n o = if ltb (length args) n then none else o

-- `while i < args.len() { .. (args[i], args[i + 1]) .. i += 2 }`
abbrev pub pairs : List Bytes → List (Bytes × Bytes)
pairs [] = []
pairs (a ∷ []) = (a, []) ∷ []
pairs (a ∷ b ∷ args) = (a, b) ∷ pairs args

-- A key, and pairs behind it.
abbrev pub odd_args {ℓ} : {A : Type ℓ} → List Bytes → Option A → Option A
odd_args args o =
    if ltb (length args) 3 then none else if (length args - 1) % 2 == 0 then o else none

module _ {F : Type 0} where
  unfoldable pub on_d : Bytes → List Bytes → Option (Cmd F)
  unfolding arg_i64
  on_d cmd args =
      if length cmd == 3
      then need args 1 (some (del args))
      else if length cmd == 4
      then need args 1 (some (decr (arg args 0)))
      else if length cmd == 6
      then (if letter cmd 1 == b'b'
          then some db_size
          else if letter cmd 1 == b'e'
          then need args 2 (do n ← arg_i64 (arg args 1); some (decr_by (arg args 0) n))
          else none)
      else none

  unfoldable pub on_e : Bytes → List Bytes → Option (Cmd F)
  unfolding arg_u64
  on_e cmd args =
      if length cmd == 4
      then need args 1 (some (echo (arg args 0)))
      else if length cmd == 6
      then (if letter cmd 2 == b'i'
          then need args 1 (some (exists args))
          else if letter cmd 2 == b'p'
          then need args 2 (do n ← arg_u64 (arg args 1); some (expire (arg args 0) (from_secs n)))
          else none)
      else none

  unfoldable pub on_f : Bytes → List Bytes → Option (Cmd F)
  on_f cmd args = if length cmd == 7 then some flush_db else none

  unfoldable pub on_g : Bytes → List Bytes → Option (Cmd F)
  on_g cmd args = if length cmd == 3 then need args 1 (some (get (arg args 0))) else none

  abbrev pub h_set_of : List Bytes → Option (Cmd F)
  h_set_of args = odd_args args (some (h_set (arg args 0) (pairs (drop 1 args))))

  unfoldable pub on_h : Bytes → List Bytes → Option (Cmd F)
  unfolding arg_i64
  on_h cmd args =
      if length cmd == 4
      then (if letter cmd 1 == b's'
          then h_set_of args
          else if letter cmd 1 == b'g'
          then need args 2 (some (h_get (arg args 0) (arg args 1)))
          else if letter cmd 1 == b'd'
          then need args 2 (some (h_del (arg args 0) (drop 1 args)))
          else if letter cmd 1 == b'l'
          then need args 1 (some (h_len (arg args 0)))
          else none)
      else if length cmd == 5
      then (if letter cmd 1 == b'k'
          then need args 1 (some (h_keys (arg args 0)))
          else if letter cmd 1 == b'v'
          then need args 1 (some (h_vals (arg args 0)))
          else if letter cmd 1 == b'm'
          then (if letter cmd 2 == b'g'
              then need args 2 (some (hm_get (arg args 0) (drop 1 args)))
              else if letter cmd 2 == b's'
              then h_set_of args
              else none)
          else none)
      else if length cmd == 7
      then (if letter cmd 1 == b'g'
          then need args 1 (some (h_get_all (arg args 0)))
          else if letter cmd 1 == b'e'
          then need args 2 (some (h_exists (arg args 0) (arg args 1)))
          else if letter cmd 1 == b'i'
          then need args 3
              (do n ← arg_i64 (arg args 2); some (h_incr_by (arg args 0) (arg args 1) n))
          else none)
      else none

  unfoldable pub on_i : Bytes → List Bytes → Option (Cmd F)
  unfolding arg_i64
  on_i cmd args =
      if length cmd == 4
      then need args 1 (some (incr (arg args 0)))
      else if length cmd == 6
      then need args 2 (do n ← arg_i64 (arg args 1); some (incr_by (arg args 0) n))
      else none

  unfoldable pub on_k : Bytes → List Bytes → Option (Cmd F)
  on_k cmd args = if length cmd == 4 then need args 1 (some (keys (arg args 0))) else none

  unfoldable pub on_m : Bytes → List Bytes → Option (Cmd F)
  on_m cmd args =
      if length cmd == 4
      then (if letter cmd 1 == b'g'
          then need args 1 (some (m_get args))
          else if letter cmd 1 == b's'
          then (if length args == 0
              then none
              else if length args % 2 == 0
              then some (m_set (pairs args))
              else none)
          else none)
      else none

  unfoldable pub on_p : Bytes → List Bytes → Option (Cmd F)
  unfolding arg_u64
  on_p cmd args =
      if length cmd == 4
      then (if letter cmd 1 == b'i'
          then some (ping (get_elem? args 0))
          else if letter cmd 1 == b't'
          then need args 1 (some (pttl (arg args 0)))
          else none)
      else if length cmd == 7
      then (if letter cmd 1 == b'e'
          then (if letter cmd 2 == b'r'
              then need args 1 (some (persist (arg args 0)))
              else if letter cmd 2 == b'x'
              then need args 2
                  (do n ← arg_u64 (arg args 1); some (expire (arg args 0) (from_millis n)))
              else none)
          else if letter cmd 1 == b'u'
          then need args 2 (some (publish (arg args 0) (arg args 1)))
          else none)
      else none

  unfoldable pub on_q : Bytes → List Bytes → Option (Cmd F)
  on_q cmd args = if length cmd == 4 then some quit else none
