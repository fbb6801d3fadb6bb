-- ===== src/Command.antt =====
-- `Cmd` of radixox-lib/src/cmd.rs: a command as the I/O thread hands it to the data thread. A
-- floating-point number is of any type `F`; `OwnedByte` and `SmallVec` are lists.
pub mod Args
pub mod Options
pub mod Words
pub mod Dispatch
pub mod Request
use radixox.Common.{ℕ, ◌*◌, ◌/◌, ◌%◌, Bool, List, Option, none, ℤ}

-- `std::time::Duration`
pub record Duration : Type 0 where
  pub secs : ℕ
  pub nanos : ℕ

abbrev pub from_secs : ℕ → Duration
from_secs s = record { secs = s; nanos = 0 }

abbrev pub from_millis : ℕ → Duration
from_millis ms = record { secs = ms / 1000; nanos = ms % 1000 * 1000000 }

pub data SetCondition : Type 0 where
  always if_not_exists if_exists : SetCondition

pub record SetOpts : Type 0 where
  pub ttl : Option Duration
  pub condition : SetCondition

abbrev pub default_opts : SetOpts
default_opts = record { ttl = none; condition = always }

abbrev pub Bytes : Type 0
Bytes = List ℕ

pub data Cmd (F : Type 0) : Type 0 where
  ping : Option Bytes → Cmd F
  quit db_size flush_db : Cmd F
  echo get type_of keys ttl pttl persist incr decr : Bytes → Cmd F
  select : ℕ → Cmd F
  set : Bytes → Bytes → SetOpts → Cmd F
  m_get del unlink exists : List Bytes → Cmd F
  m_set : List (Bytes × Bytes) → Cmd F
  expire : Bytes → Duration → Cmd F
  incr_by decr_by : Bytes → ℤ → Cmd F
  h_set : Bytes → List (Bytes × Bytes) → Cmd F
  h_get h_exists : Bytes → Bytes → Cmd F
  h_get_all h_len h_keys h_vals : Bytes → Cmd F
  h_del hm_get : Bytes → List Bytes → Cmd F
  h_incr_by : Bytes → Bytes → ℤ → Cmd F
  s_add s_rem : Bytes → List Bytes → Cmd F
  s_is_member : Bytes → Bytes → Cmd F
  s_card s_members : Bytes → Cmd F
  s_pop : Bytes → Option ℕ → Cmd F
  z_add : Bytes → List (F × Bytes) → Cmd F
  z_card : Bytes → Cmd F
  z_range : Bytes → ℤ → ℤ → Bool → Cmd F
  z_score : Bytes → Bytes → Cmd F
  z_rem : Bytes → List Bytes → Cmd F
  z_incr_by : Bytes → F → Bytes → Cmd F
  subscribe unsubscribe : List Bytes → Cmd F
  publish : Bytes → Bytes → Cmd F
