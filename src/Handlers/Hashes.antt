-- ===== src/Handlers/Hashes.antt =====
-- The handlers of radixox/src/bin/resp_cmd/hash.rs.
use radixox.Common.{ℕ, if◌then◌else◌, List, [], ◌∷◌, none, some, ◌⊎◌, inl, inr, ◌>>=◌, pos, codes}
use radixox.Command.{Bytes}
use radixox.Command.Words.{pairs}
use radixox.Frame.{Frame, error, integer, array}
use radixox.Frame.Sent.{bulk_strings}
use radixox.Tree.{Crates, Tree}
use radixox.Value.{Value, parse_i64}
use radixox.Value.HashCommands
use radixox.Value.HashCommands.{TypeError, value_not_set, not_a_int}
use radixox.Handlers.{
  Handled, reply, ok_frame, wrong_arity, wrong_type, not_integer, optional, optionals,
}
use radixox.Handlers.Expiry.{yes_no}
use radixox.Handlers.Strings.{is_odd}

-- The errors of the commands that write.
abbrev pub type_error : TypeError → Frame
type_error value_not_set = wrong_type
type_error not_a_int = error (codes "ERR internal error")

abbrev pub written {ℓ} : {A : Type ℓ} → (A → Frame) → TypeError ⊎ A → Frame
written f (inl e) = type_error e
written f (inr a) = f a

-- The replies of the commands that read: any error says that the type is wrong.
abbrev pub read {κ ℓ} : {E : Type κ} {A : Type ℓ} → (A → Frame) → E ⊎ A → Frame
read f (inl e) = wrong_type
read f (inr a) = f a

abbrev pub counted : ℕ → Frame
counted n = integer (pos n)

abbrev pub listed : List Bytes → Frame
listed items = array (bulk_strings items)

module _ {Z : Type 0} {m : Crates (Value Z)} where
  -- `cmd_hset` and `cmd_hmset`, which differ in their names and in the reply.
  abbrev pub hset_with : Bytes → (ℕ → Frame) → List Bytes → Tree m → Handled m
  hset_with name f [] t = reply (wrong_arity name) t
  hset_with name f (key ∷ []) t = reply (wrong_arity name) t
  hset_with name f (key ∷ field ∷ []) t = reply (wrong_arity name) t
  hset_with name f (key ∷ field ∷ val ∷ args) t =
      if is_odd args then reply (wrong_arity name) t else (do
        (r, t) ← HashCommands.cmd_hset t key (pairs (field ∷ val ∷ args)) none
        reply (written f r) t)

  unfoldable pub cmd_hset : List Bytes → Tree m → Handled m
  cmd_hset args t = hset_with (codes "HSET") counted args t

  unfoldable pub cmd_hmset : List Bytes → Tree m → Handled m
  cmd_hmset args t = hset_with (codes "HMSET") (λ added. ok_frame) args t

  unfoldable pub cmd_hget : List Bytes → Tree m → Handled m
  cmd_hget [] t = reply (wrong_arity (codes "HGET")) t
  cmd_hget (key ∷ []) t = reply (wrong_arity (codes "HGET")) t
  cmd_hget (key ∷ field ∷ args) t = do
    (r, t) ← HashCommands.cmd_hget t key field
    reply (read optional r) t

  unfoldable pub cmd_hgetall : List Bytes → Tree m → Handled m
  cmd_hgetall [] t = reply (wrong_arity (codes "HGETALL")) t
  cmd_hgetall (key ∷ args) t = do (r, t) ← HashCommands.cmd_hgetall t key; reply (read listed r) t

  unfoldable pub cmd_hdel : List Bytes → Tree m → Handled m
  cmd_hdel [] t = reply (wrong_arity (codes "HDEL")) t
  cmd_hdel (key ∷ []) t = reply (wrong_arity (codes "HDEL")) t
  cmd_hdel (key ∷ field ∷ args) t = do
    (r, t) ← HashCommands.cmd_hdel t key (field ∷ args)
    reply (read counted r) t

  unfoldable pub cmd_hexists : List Bytes → Tree m → Handled m
  cmd_hexists [] t = reply (wrong_arity (codes "HEXISTS")) t
  cmd_hexists (key ∷ []) t = reply (wrong_arity (codes "HEXISTS")) t
  cmd_hexists (key ∷ field ∷ args) t = do
    (r, t) ← HashCommands.cmd_hexists t key field
    reply (read yes_no r) t

  unfoldable pub cmd_hlen : List Bytes → Tree m → Handled m
  cmd_hlen [] t = reply (wrong_arity (codes "HLEN")) t
  cmd_hlen (key ∷ args) t = do (r, t) ← HashCommands.cmd_hlen t key; reply (read counted r) t

  unfoldable pub cmd_hkeys : List Bytes → Tree m → Handled m
  cmd_hkeys [] t = reply (wrong_arity (codes "HKEYS")) t
  cmd_hkeys (key ∷ args) t = do (r, t) ← HashCommands.cmd_hkeys t key; reply (read listed r) t

  unfoldable pub cmd_hvals : List Bytes → Tree m → Handled m
  cmd_hvals [] t = reply (wrong_arity (codes "HVALS")) t
  cmd_hvals (key ∷ args) t = do (r, t) ← HashCommands.cmd_hvals t key; reply (read listed r) t

  unfoldable pub cmd_hmget : List Bytes → Tree m → Handled m
  cmd_hmget [] t = reply (wrong_arity (codes "HMGET")) t
  cmd_hmget (key ∷ []) t = reply (wrong_arity (codes "HMGET")) t
  cmd_hmget (key ∷ field ∷ args) t = do
    (r, t) ← HashCommands.cmd_hmget t key (field ∷ args)
    reply (read (λ os. array (optionals os)) r) t

  unfoldable pub cmd_hincrby : List Bytes → Tree m → Handled m
  cmd_hincrby [] t = reply (wrong_arity (codes "HINCRBY")) t
  cmd_hincrby (key ∷ []) t = reply (wrong_arity (codes "HINCRBY")) t
  cmd_hincrby (key ∷ field ∷ []) t = reply (wrong_arity (codes "HINCRBY")) t
  cmd_hincrby (key ∷ field ∷ arg ∷ args) t = elim (parse_i64 arg) [
    | none ↦ reply not_integer t
    | some increment ↦ do
      (r, t) ← HashCommands.cmd_hincrby t key field increment
      reply (read integer r) t
  ]
