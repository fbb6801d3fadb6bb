-- ===== src/Handlers/Strings.antt =====
-- The handlers of radixox/src/bin/resp_cmd/string.rs that read and write values.
pub mod Laws
use radixox.Common.{
  ℕ, zero, suc, ◌+◌, ◌%◌, ◌≡◌, Bool, true, false, not, ◌==◌, if◌then◌else◌, List, [], ◌∷◌, ◌++◌,
  Option, none, some, ◌⊎◌, inl, inr, Run, ok, panic, ◌>>=◌, ℤ, pos, codes,
}
use radixox.Command.{Bytes, Duration, SetCondition, SetOpts, always, if_not_exists, if_exists}
use radixox.Frame.{
  Frame, Frames, simple_string, error, bulk_string, integer, array, null, no_frames, ◌▷◌,
}
use radixox.Tree.{Crates, Tree}
use radixox.Tree.Insert.{set, set_ttl}
use radixox.Tree.Remove.{get, del}
use radixox.Value.{
  Value, RedisType, IntError, not_an_integer, overflow, as_bytes, redis_type, parse_i64,
}
use radixox.Value.{string as string_value}
use radixox.Value.Counter.{incrby, incr_one, decr_one, decrby}
use radixox.Handlers.{Handled, reply, ok_frame, wrong_arity, wrong_type, not_integer, as_str}
use radixox.Handlers.Options.{parse_set_options}
use radixox.Handlers.Numbers.{parse_u64}

-- The reply of GET.
abbrev pub bytes_of : {Z : Type 0} → Option (Value Z) → Frame
bytes_of none = null
bytes_of (some v) = elim (as_bytes v) [ none ↦ wrong_type | some b ↦ bulk_string b ]

abbrev pub counter_err : IntError → Frame
counter_err not_an_integer = not_integer
counter_err overflow = error (codes "ERR increment or decrement would overflow")

abbrev pub counted : IntError ⊎ ℤ → Frame
counted (inl e) = counter_err e
counted (inr n) = integer n

abbrev pub is_present {ℓ} : {A : Type ℓ} → Option A → Bool
is_present none = false
is_present (some a) = true

-- The condition keeps SET from writing.
abbrev pub refuses : SetCondition → Bool → Bool
refuses always exists = false
refuses if_not_exists exists = exists
refuses if_exists exists = not exists

-- The reply of MGET for a key: a value that is no string is no error.
abbrev pub bytes_or_null : {Z : Type 0} → Option (Value Z) → Frame
bytes_or_null none = null
bytes_or_null (some v) = elim (as_bytes v) [ none ↦ null | some b ↦ bulk_string b ]

abbrev pub is_odd : List Bytes → Bool
is_odd [] = false
is_odd (arg ∷ args) = not (is_odd args)

module _ {Z : Type 0} {m : Crates (Value Z)} where
  unfoldable pub cmd_get : List Bytes → Tree m → Handled m
  cmd_get [] t = reply (wrong_arity (codes "GET")) t
  cmd_get (key ∷ args) t = do (val, t) ← get t key; ok (bytes_of val, t)

  -- The lookup before the write is left out where there is no condition.
  abbrev pub check : SetCondition → Bytes → Tree m → Run (Bool × Tree m)
  check always key t = ok (false, t)
  check if_not_exists key t = do
    (val, t) ← get t key
    ok (refuses if_not_exists (is_present val), t)
  check if_exists key t = do (val, t) ← get t key; ok (refuses if_exists (is_present val), t)

  abbrev pub write : Bytes → Bytes → Option Duration → Tree m → Run (Tree m)
  write key val none t = set t key (string_value val)
  write key val (some d) t = set_ttl t key d.secs (string_value val)

  -- What SET does with its options.
  abbrev pub set_with : Bytes → Bytes → Frame ⊎ SetOpts → Tree m → Handled m
  set_with key val (inl e) t = reply e t
  set_with key val (inr opts) t = do
    (refused, t) ← check opts.condition key t
    if refused then reply null t else (do t ← write key val opts.ttl t; reply ok_frame t)

  unfoldable pub cmd_set : List Bytes → Tree m → Handled m
  cmd_set [] t = reply (wrong_arity (codes "SET")) t
  cmd_set (key ∷ []) t = reply (wrong_arity (codes "SET")) t
  cmd_set (key ∷ val ∷ args) t = set_with key val (parse_set_options args) t

  abbrev pub count : Run ((IntError ⊎ ℤ) × Tree m) → Handled m
  count run = do (r, t) ← run; ok (counted r, t)

  unfoldable pub cmd_incr : List Bytes → Tree m → Handled m
  cmd_incr [] t = reply (wrong_arity (codes "INCR")) t
  cmd_incr (key ∷ args) t = count (incr_one t key)

  unfoldable pub cmd_decr : List Bytes → Tree m → Handled m
  cmd_decr [] t = reply (wrong_arity (codes "DECR")) t
  cmd_decr (key ∷ args) t = count (decr_one t key)

  unfoldable pub cmd_incrby : List Bytes → Tree m → Handled m
  cmd_incrby [] t = reply (wrong_arity (codes "INCRBY")) t
  cmd_incrby (key ∷ []) t = reply (wrong_arity (codes "INCRBY")) t
  cmd_incrby (key ∷ arg ∷ args) t = elim (parse_i64 arg) [
    | none ↦ reply not_integer t
    | some delta ↦ count (incrby t key delta)
  ]

  unfoldable pub cmd_decrby : List Bytes → Tree m → Handled m
  cmd_decrby [] t = reply (wrong_arity (codes "DECRBY")) t
  cmd_decrby (key ∷ []) t = reply (wrong_arity (codes "DECRBY")) t
  cmd_decrby (key ∷ arg ∷ args) t = elim (parse_i64 arg) [
    | none ↦ reply not_integer t
    | some delta ↦ count (decrby t key delta)
  ]

  -- The loop of DEL, and that of EXISTS, with the number of keys that were there.
  unfoldable pub del_all : List Bytes → ℕ → Tree m → Run (ℕ × Tree m)
  del_all [] n t = ok (n, t)
  del_all (key ∷ keys) n t = do
    (old, t) ← del t key
    del_all keys (if is_present old then n + 1 else n) t

  unfoldable pub cmd_del : List Bytes → Tree m → Handled m
  cmd_del [] t = reply (wrong_arity (codes "DEL")) t
  cmd_del (key ∷ keys) t = do (n, t) ← del_all (key ∷ keys) 0 t; ok (integer (pos n), t)

  unfoldable pub exist_all : List Bytes → ℕ → Tree m → Run (ℕ × Tree m)
  exist_all [] n t = ok (n, t)
  exist_all (key ∷ keys) n t = do
    (val, t) ← get t key
    exist_all keys (if is_present val then n + 1 else n) t

  unfoldable pub cmd_exists : List Bytes → Tree m → Handled m
  cmd_exists [] t = reply (wrong_arity (codes "EXISTS")) t
  cmd_exists (key ∷ keys) t = do (n, t) ← exist_all (key ∷ keys) 0 t; ok (integer (pos n), t)

  unfoldable pub get_all : List Bytes → Tree m → Run (Frames × Tree m)
  get_all [] t = ok (no_frames, t)
  get_all (key ∷ keys) t = do
    (val, t) ← get t key
    (frames, t) ← get_all keys t
    ok (bytes_or_null val ▷ frames, t)

  unfoldable pub cmd_mget : List Bytes → Tree m → Handled m
  cmd_mget [] t = reply (wrong_arity (codes "MGET")) t
  cmd_mget (key ∷ keys) t = do (frames, t) ← get_all (key ∷ keys) t; ok (array frames, t)

  -- The loop of MSET over `chunks_exact(2)`.
  unfoldable pub set_all : List Bytes → Tree m → Run (Tree m)
  set_all [] t = ok t
  set_all (key ∷ []) t = ok t
  set_all (key ∷ val ∷ args) t = do t ← set t key (string_value val); set_all args t

  unfoldable pub cmd_mset : List Bytes → Tree m → Handled m
  cmd_mset [] t = reply (wrong_arity (codes "MSET")) t
  cmd_mset (key ∷ args) t =
      if is_odd (key ∷ args)
      then reply (wrong_arity (codes "MSET")) t
      else (do t ← set_all (key ∷ args) t; reply ok_frame t)

  unfoldable pub cmd_setnx : List Bytes → Tree m → Handled m
  cmd_setnx [] t = reply (wrong_arity (codes "SETNX")) t
  cmd_setnx (key ∷ []) t = reply (wrong_arity (codes "SETNX")) t
  cmd_setnx (key ∷ val ∷ args) t = do
    (old, t) ← get t key
    if is_present old
        then reply (integer (pos 0)) t
        else (do t ← set t key (string_value val); reply (integer (pos 1)) t)

  unfoldable pub cmd_setex : List Bytes → Tree m → Handled m
  cmd_setex [] t = reply (wrong_arity (codes "SETEX")) t
  cmd_setex (key ∷ []) t = reply (wrong_arity (codes "SETEX")) t
  cmd_setex (key ∷ arg ∷ []) t = reply (wrong_arity (codes "SETEX")) t
  cmd_setex (key ∷ arg ∷ val ∷ args) t = elim (parse_u64 arg) [
    | none ↦ reply not_integer t
    | some secs ↦ do t ← set_ttl t key secs (string_value val); reply ok_frame t
  ]

  unfoldable pub cmd_type : List Bytes → Tree m → Handled m
  unfolding as_str
  cmd_type [] t = reply (wrong_arity (codes "TYPE")) t
  cmd_type (key ∷ args) t = do
    (val, t) ← get t key
    ok (
      elim val [
        | none ↦ simple_string (codes "none")
        | some v ↦ simple_string (as_str (redis_type v))
      ],
      t,
    )

unfoldable pub cmd_echo : List Bytes → Frame
cmd_echo [] = wrong_arity (codes "ECHO")
cmd_echo (message ∷ args) = bulk_string message
