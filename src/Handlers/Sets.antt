-- ===== src/Handlers/Sets.antt =====
-- The handlers of radixox/src/bin/resp_cmd/sset.rs and zset.rs.
use radixox.Common.{
  Bool, false, if◌then◌else◌, List, [], ◌∷◌, Option, none, some, ◌⊎◌, inl, inr, ◌>>=◌, codes,
}
use radixox.Command.{Bytes}
use radixox.Frame.{Frame, error, bulk_string, null}
use radixox.Tree.{Crates, Tree}
use radixox.Value.{Value, RedisType, parse_i64}
use radixox.Value.HashCommands.{TypeError, value_not_set, not_a_int}
use radixox.Value.SetCommands
use radixox.Value.SetCommands.{SpopResult, single, multiple}
use radixox.Value.ZSetCommands
use radixox.ZSet.{ZSet}
use radixox.ZSet.Entries.{Floats}
use radixox.Handlers.{Handled, reply, wrong_arity, wrong_type, not_integer, expected, optional}
use radixox.Handlers.Expiry.{yes_no}
use radixox.Handlers.Options.{is_word}
use radixox.Handlers.Strings.{is_odd}
use radixox.Handlers.Hashes.{written, counted, listed}

-- The replies of the commands that read: the error says which type was there.
abbrev pub typed {ℓ} : {A : Type ℓ} → Bytes → (A → Frame) → RedisType ⊎ A → Frame
typed wanted f (inl got) = expected wanted got
typed wanted f (inr a) = f a

abbrev pub spopped : TypeError ⊎ SpopResult → Frame
spopped (inl value_not_set) = wrong_type
spopped (inl not_a_int) = not_integer
spopped (inr (single o)) = optional o
spopped (inr (multiple members)) = listed members

module _ {Z : Type 0} {m : Crates (Value Z)} where
  unfoldable pub cmd_sadd : List Bytes → Tree m → Handled m
  cmd_sadd [] t = reply (wrong_arity (codes "SADD")) t
  cmd_sadd (key ∷ []) t = reply (wrong_arity (codes "SADD")) t
  cmd_sadd (key ∷ member ∷ args) t = do
    (r, t) ← SetCommands.cmd_sadd t key (member ∷ args) none
    reply (written counted r) t

  unfoldable pub cmd_srem : List Bytes → Tree m → Handled m
  cmd_srem [] t = reply (wrong_arity (codes "SREM")) t
  cmd_srem (key ∷ []) t = reply (wrong_arity (codes "SREM")) t
  cmd_srem (key ∷ member ∷ args) t = do
    (r, t) ← SetCommands.cmd_srem t key (member ∷ args)
    reply (typed (codes "set") counted r) t

  unfoldable pub cmd_sismember : List Bytes → Tree m → Handled m
  cmd_sismember [] t = reply (wrong_arity (codes "SISMEMBER")) t
  cmd_sismember (key ∷ []) t = reply (wrong_arity (codes "SISMEMBER")) t
  cmd_sismember (key ∷ member ∷ args) t = do
    (r, t) ← SetCommands.cmd_sismember t key member
    reply (typed (codes "set") yes_no r) t

  unfoldable pub cmd_scard : List Bytes → Tree m → Handled m
  cmd_scard [] t = reply (wrong_arity (codes "SCARD")) t
  cmd_scard (key ∷ args) t = do
    (r, t) ← SetCommands.cmd_scard t key
    reply (typed (codes "set") counted r) t

  unfoldable pub cmd_smembers : List Bytes → Tree m → Handled m
  cmd_smembers [] t = reply (wrong_arity (codes "SMEMBERS")) t
  cmd_smembers (key ∷ args) t = do
    (r, t) ← SetCommands.cmd_smembers t key
    reply (typed (codes "set") listed r) t

  unfoldable pub cmd_spop : List Bytes → Tree m → Handled m
  cmd_spop [] t = reply (wrong_arity (codes "SPOP")) t
  cmd_spop (key ∷ []) t = do (r, t) ← SetCommands.cmd_spop t key none; reply (spopped r) t
  cmd_spop (key ∷ count ∷ args) t = do
    (r, t) ← SetCommands.cmd_spop t key (some count)
    reply (spopped r) t

abbrev pub not_float : Frame
not_float = error (codes "ERR value is not a valid float")

-- `opt.eq_ignore_ascii_case(b"WITHSCORES")` for the fourth argument, if there is one
abbrev pub with_scores : List Bytes → Bool
with_scores [] = false
with_scores (opt ∷ args) = is_word (codes "WITHSCORES") opt

module _ {F : Type 0} (fl : Floats F) where
  abbrev pub printed : Option F → Frame
  printed none = null
  printed (some score) = bulk_string (fl.print score)

  -- The pairs of a score and a member; a score that is no number ends the loop.
  unfoldable pub scored : List Bytes → Option (List (F × Bytes))
  scored [] = some []
  scored (arg ∷ []) = some []
  scored (arg ∷ member ∷ args) =
      let rest = scored args in
      elim (fl.parse arg) [
        | none ↦ none
        | some score ↦ elim rest [ none ↦ none | some ps ↦ some ((score, member) ∷ ps) ]
      ]

module _ {F : Type 0} (fl : Floats F) {m : Crates (Value (ZSet F))} where
  unfoldable pub cmd_zadd : List Bytes → Tree m → Handled m
  unfolding scored
  cmd_zadd [] t = reply (wrong_arity (codes "ZADD")) t
  cmd_zadd (key ∷ []) t = reply (wrong_arity (codes "ZADD")) t
  cmd_zadd (key ∷ arg ∷ []) t = reply (wrong_arity (codes "ZADD")) t
  cmd_zadd (key ∷ arg ∷ member ∷ args) t =
      if is_odd args
      then reply (wrong_arity (codes "ZADD")) t
      else (elim (scored fl (arg ∷ member ∷ args)) [
        | none ↦ reply not_float t
        | some ps ↦ do (r, t) ← ZSetCommands.cmd_zadd fl t key ps none; reply (written counted r) t
      ])

  unfoldable pub cmd_zcard : List Bytes → Tree m → Handled m
  cmd_zcard [] t = reply (wrong_arity (codes "ZCARD")) t
  cmd_zcard (key ∷ []) t = do
    (r, t) ← ZSetCommands.cmd_zcard fl t key
    reply (typed (codes "zset") counted r) t
  cmd_zcard (key ∷ arg ∷ args) t = reply (wrong_arity (codes "ZCARD")) t

  unfoldable pub cmd_zrange : List Bytes → Tree m → Handled m
  cmd_zrange [] t = reply (wrong_arity (codes "ZRANGE")) t
  cmd_zrange (key ∷ []) t = reply (wrong_arity (codes "ZRANGE")) t
  cmd_zrange (key ∷ start ∷ []) t = reply (wrong_arity (codes "ZRANGE")) t
  cmd_zrange (key ∷ start ∷ stop ∷ args) t = elim (parse_i64 start) [
    | none ↦ reply not_integer t
    | some first ↦ elim (parse_i64 stop) [
      | none ↦ reply not_integer t
      | some last ↦ do
        (r, t) ← ZSetCommands.cmd_zrange fl t key first last (with_scores args)
        reply (typed (codes "zset") listed r) t
    ]
  ]

  unfoldable pub cmd_zscore : List Bytes → Tree m → Handled m
  cmd_zscore (key ∷ member ∷ []) t = do
    (r, t) ← ZSetCommands.cmd_zscore fl t key member
    reply (typed (codes "zset") (printed fl) r) t
  cmd_zscore args t = reply (wrong_arity (codes "ZSCORE")) t

  unfoldable pub cmd_zrem : List Bytes → Tree m → Handled m
  cmd_zrem [] t = reply (wrong_arity (codes "ZREM")) t
  cmd_zrem (key ∷ []) t = reply (wrong_arity (codes "ZREM")) t
  cmd_zrem (key ∷ member ∷ args) t = do
    (r, t) ← ZSetCommands.cmd_zrem fl t key (member ∷ args)
    reply (typed (codes "zset") counted r) t

  unfoldable pub cmd_zincrby : List Bytes → Tree m → Handled m
  cmd_zincrby (key ∷ arg ∷ member ∷ []) t = elim (fl.parse arg) [
    | none ↦ reply not_float t
    | some increment ↦ do
      (r, t) ← ZSetCommands.cmd_zincrby fl t key increment member
      reply (written (λ score. bulk_string (fl.print score)) r) t
  ]
  cmd_zincrby args t = reply (wrong_arity (codes "ZINCRBY")) t
