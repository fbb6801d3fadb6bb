-- ===== src/Handlers/Expiry.antt =====
-- The handlers of radixox/src/bin/resp_cmd/string.rs for the times of keys.
use radixox.Common.{
  ℕ, ◌*◌, ◌-◌, ◌%◌, ◌^◌, Bool, true, false, ltb, if◌then◌else◌, List, [], ◌∷◌, none, some, ok,
  ◌>>=◌, ℤ, pos, negsuc, codes,
}
use radixox.Command.{Bytes, from_millis}
use radixox.Frame.{Frame, error, integer}
use radixox.Tree.{Crates, Tree}
use radixox.Tree.Clock.{
  TtlResult, key_not_exist, key_with_ttl, key_without_ttl, get_ttl, expire, persist,
}
use radixox.Handlers.{Handled, reply, wrong_arity, not_integer}
use radixox.Handlers.Numbers.{parse_u64}

-- `n as i64`, for a number of 64 bits
abbrev pub as_i64 : ℕ → ℤ
as_i64 n = if ltb n (2 ^ 63) then pos n else negsuc (2 ^ 64 - 1 - n)

abbrev pub seconds : TtlResult → Frame
seconds key_not_exist = integer (negsuc 1)
seconds key_without_ttl = integer (negsuc 0)
seconds (key_with_ttl secs) = integer (as_i64 secs)

-- In a release build the product keeps 64 bits.
abbrev pub milliseconds : TtlResult → Frame
milliseconds key_not_exist = integer (negsuc 1)
milliseconds key_without_ttl = integer (negsuc 0)
milliseconds (key_with_ttl secs) = integer (as_i64 (secs * 1000 % 2 ^ 64))

abbrev pub yes_no : Bool → Frame
yes_no true = integer (pos 1)
yes_no false = integer (pos 0)

module _ {V : Type 0} {m : Crates V} where
  unfoldable pub cmd_ttl : List Bytes → Tree m → Handled m
  cmd_ttl [] t = reply (wrong_arity (codes "TTL")) t
  cmd_ttl (key ∷ args) t = do r ← get_ttl t key; reply (seconds r) t

  unfoldable pub cmd_pttl : List Bytes → Tree m → Handled m
  cmd_pttl [] t = reply (wrong_arity (codes "PTTL")) t
  cmd_pttl (key ∷ args) t = do r ← get_ttl t key; reply (milliseconds r) t

  unfoldable pub cmd_expire : List Bytes → Tree m → Handled m
  cmd_expire [] t = reply (wrong_arity (codes "EXPIRE")) t
  cmd_expire (key ∷ []) t = reply (wrong_arity (codes "EXPIRE")) t
  cmd_expire (key ∷ arg ∷ args) t = elim (parse_u64 arg) [
    | none ↦ reply (error (codes "ERR value is not an integer")) t
    | some secs ↦ do (done, t) ← expire t key secs; ok (yes_no done, t)
  ]

  -- The tree counts in whole seconds.
  unfoldable pub cmd_pexpire : List Bytes → Tree m → Handled m
  cmd_pexpire [] t = reply (wrong_arity (codes "PEXPIRE")) t
  cmd_pexpire (key ∷ []) t = reply (wrong_arity (codes "PEXPIRE")) t
  cmd_pexpire (key ∷ arg ∷ args) t = elim (parse_u64 arg) [
    | none ↦ reply not_integer t
    | some ms ↦ do (done, t) ← expire t key (from_millis ms).secs; ok (yes_no done, t)
  ]

  unfoldable pub cmd_persist : List Bytes → Tree m → Handled m
  cmd_persist [] t = reply (wrong_arity (codes "PERSIST")) t
  cmd_persist (key ∷ args) t = do (done, t) ← persist t key; ok (yes_no done, t)
