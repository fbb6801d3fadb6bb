-- ===== src/Handlers.antt =====
-- The command handlers of radixox/src/bin/resp_cmd and radixox/src/bin/resp.rs: the arguments of a
-- command and the tree give a frame and the tree.
pub mod Numbers
pub mod Options
pub mod Strings
pub mod Expiry
pub mod Hashes
pub mod Sets
pub mod Server
pub mod Table
pub mod Connection
use radixox.Common.{
  ℕ, List, [], ◌∷◌, ◌++◌, Option, none, some, ◌⊎◌, inl, inr, Run, ok, ◌>>=◌, ℤ, pos, codes,
}
use radixox.Command.{Bytes}
use radixox.Frame.{
  Frame, Frames, simple_string, error, bulk_string, integer, array, null, no_frames, ◌▷◌,
}
use radixox.Frame.Sent.{bulk_strings}
use radixox.Tree.{Crates, Tree}
use radixox.Value.{RedisType, none_type, string_type, hash_type, list_type, set_type, zset_type}

-- A handler that may change the tree.
abbrev pub Handled : {V : Type 0} → Crates V → Type 0
Handled m = Run (Frame × Tree m)

-- A reply that leaves the tree as it is.
abbrev pub reply : {V : Type 0} {m : Crates V} → Frame → Tree m → Handled m
reply f t = ok (f, t)

abbrev pub ok_frame : Frame
ok_frame = simple_string (codes "OK")

-- `ERR wrong number of arguments for '..' command`
abbrev pub wrong_arity : Bytes → Frame
wrong_arity name = error (codes "ERR wrong number of arguments for '" ++ name ++ codes "' command")

abbrev pub wrong_type : Frame
wrong_type = error (codes "WRONGTYPE Operation against a key holding the wrong kind of value")

abbrev pub not_integer : Frame
not_integer = error (codes "ERR value is not an integer or out of range")

-- `RedisType::as_str`
unfoldable pub as_str : RedisType → Bytes
as_str none_type = codes "none"
as_str string_type = codes "string"
as_str hash_type = codes "hash"
as_str list_type = codes "list"
as_str set_type = codes "set"
as_str zset_type = codes "zset"

-- The error that says which type was expected, and which one was there.
abbrev pub expected : Bytes → RedisType → Frame
expected wanted got = error (
    codes "WRONGTYPE Operation against a key holding the wrong kind of value (expected "
    ++ wanted
    ++ codes ", got "
    ++ as_str got
    ++ codes ")")

-- `Frame::BulkString(b)` for a value, and `Frame::Null` for none.
abbrev pub optional : Option Bytes → Frame
optional none = null
optional (some b) = bulk_string b

abbrev pub optionals : List (Option Bytes) → Frames
optionals [] = no_frames
optionals (o ∷ os) = optional o ▷ optionals os
