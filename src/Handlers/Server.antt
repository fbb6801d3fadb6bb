-- ===== src/Handlers/Server.antt =====
-- DBSIZE and FLUSHDB of radixox/src/bin/resp_cmd/string.rs.
use radixox.Common.{ℕ, [], Option, none, some, Run, panic, ◌>>=◌, pos, length}
use radixox.Frame.{integer}
use radixox.Tree.{Crates, Tree}
use radixox.Tree.Sweep.{getn, deln}
use radixox.Handlers.{Handled, reply, ok_frame}

-- What bounds the two: the depth of the stack, and the number of nodes.
pub record Limits : Type 0 where
  pub stack : ℕ
  pub nodes : ℕ

module _ {V : Type 0} {m : Crates V} (limits : Limits) where
  unfoldable pub cmd_dbsize : Tree m → Handled m
  cmd_dbsize t = do entries ← getn limits.stack t []; reply (integer (pos (length entries))) t

  abbrev pub flushed : Option (Run (ℕ × Tree m)) → Handled m
  flushed none = panic
  flushed (some run) = do (n, t) ← run; reply ok_frame t

  unfoldable pub cmd_flushdb : Tree m → Handled m
  cmd_flushdb t = flushed (deln limits.nodes t [])
