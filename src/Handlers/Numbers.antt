-- ===== src/Handlers/Numbers.antt =====
-- `parse_int` of radixox/src/bin/resp.rs, at the types that the handlers use. `str::parse` reads a sign
-- in front of the digits; a minus sign only for a signed type.
use radixox.Common.{ℕ, ◌^◌, ◌==◌, ltb, if◌then◌else◌, [], ◌∷◌, Option, none, some}
use radixox.Value.{unsigned}
use radixox.Command.{Bytes}

abbrev pub in_u64 : Option ℕ → Option ℕ
in_u64 none = none
in_u64 (some n) = if ltb n (2 ^ 64) then some n else none

-- `parse::<u64>()`
unfoldable pub parse_u64 : Bytes → Option ℕ
parse_u64 [] = none
parse_u64 (b ∷ bs) = if b == b'+' then in_u64 (unsigned bs) else in_u64 (unsigned (b ∷ bs))
