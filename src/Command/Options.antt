-- ===== src/Command/Options.antt =====
-- The options of SET: `parse_set_opts` of radixox-lib/src/cmd.rs.
use Prim.Native.Nat.{bit_or}
use radixox.Common.{ℕ, not, ◌==◌, if◌then◌else◌, List, [], ◌∷◌, Option, none, some, length, get_or}
use radixox.Command.{Bytes, SetOpts, if_not_exists, if_exists, from_secs, from_millis, default_opts}
use radixox.Command.Args.{arg_u64, ◌>>=◌}

-- `b | 0x20`: a letter loses its case.
abbrev pub lower : ℕ → ℕ
lower b = bit_or b 0x20

-- The loop from an option on. An option with an argument takes the next one.
unfoldable pub opts_loop : SetOpts → List Bytes → Option SetOpts
unfolding arg_u64
opts_loop opts [] = some opts
opts_loop opts (s ∷ []) =
    if not (length s == 2)
    then none
    else if lower (get_or s 0 0) == b'e'
    then none
    else if lower (get_or s 0 0) == b'p'
    then none
    else if lower (get_or s 0 0) == b'n'
    then some (record opts { condition = if_not_exists })
    else if lower (get_or s 0 0) == b'x'
    then some (record opts { condition = if_exists })
    else none
opts_loop opts (s ∷ arg ∷ args) =
    let nx = opts_loop (record opts { condition = if_not_exists }) (arg ∷ args) in
    let xx = opts_loop (record opts { condition = if_exists }) (arg ∷ args) in
    let ex = arg_u64 arg >>= λ n. opts_loop (record opts { ttl = some (from_secs n) }) args in
    let px = arg_u64 arg >>= λ n. opts_loop (record opts { ttl = some (from_millis n) }) args in
    if not (length s == 2)
    then none
    else if lower (get_or s 0 0) == b'e'
    then ex
    else if lower (get_or s 0 0) == b'p'
    then px
    else if lower (get_or s 0 0) == b'n'
    then nx
    else if lower (get_or s 0 0) == b'x'
    then xx
    else none

unfoldable pub parse_set_opts : List Bytes → Option SetOpts
unfolding opts_loop
parse_set_opts args = opts_loop default_opts args
