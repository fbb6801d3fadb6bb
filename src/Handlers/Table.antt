-- ===== src/Handlers/Table.antt =====
-- The table of commands: `Handler`, `get_handler` and `run_handler` of radixox/src/bin/resp.rs.
use radixox.Common.{List, [], ◌∷◌, Option, Run, ok, panic, ◌>>=◌, codes}
use radixox.Command.{Bytes}
use radixox.Frame.{Frame}
use radixox.Hash.Entries.{find}
use radixox.Tree.{Crates, Tree}
use radixox.Value.{Value}
use radixox.ZSet.{ZSet}
use radixox.ZSet.Entries.{Floats}
use radixox.Handlers.{Handled, ok_frame}
use radixox.Handlers.Strings
use radixox.Handlers.Expiry
use radixox.Handlers.Hashes
use radixox.Handlers.Sets
use radixox.Handlers.Server
use radixox.Handlers.Server.{Limits}

-- The handlers that run beside others: `cmd_keys` and `cmd_unlink`.
pub data AsyncCommand : Type 0 where
  keys unlink : AsyncCommand

pub data Handler {V : Type 0} (m : Crates V) : Type 0 where
  static : Frame → Handler m
  args_only : (List Bytes → Frame) → Handler m
  on_data : (List Bytes → Tree m → Handled m) → Handler m
  data_only : (Tree m → Handled m) → Handler m
  async : AsyncCommand → Handler m
  ping quit subscribe unsubscribe publish : Handler m

-- The result of a handler: a frame, or a task whose frame is awaited.
pub data Answer : Type 0 where
  frame : Frame → Answer
  pending : AsyncCommand → List Bytes → Answer

module _ {F : Type 0} (fl : Floats F) (limits : Limits) {m : Crates (Value (ZSet F))} where
  abbrev pub table : List (Bytes × Handler m)
  table =
      (codes "PING", ping)
      ∷ (codes "QUIT", quit)
      ∷ (codes "SELECT", static ok_frame)
      ∷ (codes "ECHO", args_only Strings.cmd_echo)
      ∷ (codes "SUBSCRIBE", subscribe)
      ∷ (codes "UNSUBSCRIBE", unsubscribe)
      ∷ (codes "PUBLISH", publish)
      ∷ (codes "GET", on_data Strings.cmd_get)
      ∷ (codes "SET", on_data Strings.cmd_set)
      ∷ (codes "SETNX", on_data Strings.cmd_setnx)
      ∷ (codes "SETEX", on_data Strings.cmd_setex)
      ∷ (codes "MGET", on_data Strings.cmd_mget)
      ∷ (codes "MSET", on_data Strings.cmd_mset)
      ∷ (codes "DEL", on_data Strings.cmd_del)
      ∷ (codes "EXISTS", on_data Strings.cmd_exists)
      ∷ (codes "TYPE", on_data Strings.cmd_type)
      ∷ (codes "KEYS", async keys)
      ∷ (codes "UNLINK", async unlink)
      ∷ (codes "INCR", on_data Strings.cmd_incr)
      ∷ (codes "DECR", on_data Strings.cmd_decr)
      ∷ (codes "INCRBY", on_data Strings.cmd_incrby)
      ∷ (codes "DECRBY", on_data Strings.cmd_decrby)
      ∷ (codes "TTL", on_data Expiry.cmd_ttl)
      ∷ (codes "PTTL", on_data Expiry.cmd_pttl)
      ∷ (codes "EXPIRE", on_data Expiry.cmd_expire)
      ∷ (codes "PEXPIRE", on_data Expiry.cmd_pexpire)
      ∷ (codes "PERSIST", on_data Expiry.cmd_persist)
      ∷ (codes "DBSIZE", data_only (Server.cmd_dbsize limits))
      ∷ (codes "FLUSHDB", data_only (Server.cmd_flushdb limits))
      ∷ (codes "HSET", on_data Hashes.cmd_hset)
      ∷ (codes "HMSET", on_data Hashes.cmd_hmset)
      ∷ (codes "HGET", on_data Hashes.cmd_hget)
      ∷ (codes "HGETALL", on_data Hashes.cmd_hgetall)
      ∷ (codes "HDEL", on_data Hashes.cmd_hdel)
      ∷ (codes "HEXISTS", on_data Hashes.cmd_hexists)
      ∷ (codes "HLEN", on_data Hashes.cmd_hlen)
      ∷ (codes "HKEYS", on_data Hashes.cmd_hkeys)
      ∷ (codes "HVALS", on_data Hashes.cmd_hvals)
      ∷ (codes "HMGET", on_data Hashes.cmd_hmget)
      ∷ (codes "HINCRBY", on_data Hashes.cmd_hincrby)
      ∷ (codes "SADD", on_data Sets.cmd_sadd)
      ∷ (codes "SREM", on_data Sets.cmd_srem)
      ∷ (codes "SISMEMBER", on_data Sets.cmd_sismember)
      ∷ (codes "SCARD", on_data Sets.cmd_scard)
      ∷ (codes "SMEMBERS", on_data Sets.cmd_smembers)
      ∷ (codes "SPOP", on_data Sets.cmd_spop)
      ∷ (codes "ZADD", on_data (Sets.cmd_zadd fl))
      ∷ (codes "ZCARD", on_data (Sets.cmd_zcard fl))
      ∷ (codes "ZRANGE", on_data (Sets.cmd_zrange fl))
      ∷ (codes "ZSCORE", on_data (Sets.cmd_zscore fl))
      ∷ (codes "ZREM", on_data (Sets.cmd_zrem fl))
      ∷ (codes "ZINCRBY", on_data (Sets.cmd_zincrby fl))
      ∷ []

  unfoldable pub get_handler : Bytes → Option (Handler m)
  get_handler cmd = find cmd table

module _ {V : Type 0} {m : Crates V} where
  -- A command that depends on the state of the connection is `unreachable!` here.
  unfoldable pub run_handler : Handler m → List Bytes → Tree m → Run (Answer × Tree m)
  run_handler (static f) args t = ok (frame f, t)
  run_handler (args_only f) args t = ok (frame (f args), t)
  run_handler (on_data f) args t = do (r, t) ← f args t; ok (frame r, t)
  run_handler (data_only f) args t = do (r, t) ← f t; ok (frame r, t)
  run_handler (async c) args t = ok (pending c args, t)
  run_handler ping args t = panic
  run_handler quit args t = panic
  run_handler subscribe args t = panic
  run_handler unsubscribe args t = panic
  run_handler publish args t = panic
