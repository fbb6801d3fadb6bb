-- ===== src/Tests/Commands.antt =====
-- Requests that are parsed, and the laws of the parsers at concrete inputs. Floating-point numbers
-- stand as natural numbers.
use radixox.Common.{ℕ, ◌≡◌, refl, List, [], ◌∷◌, none, some, ok, arith, decimal}
use radixox.Command.{Bytes, get, flush_db, if_not_exists, from_secs}
use radixox.Command.Args.{arg_u64}
use radixox.Command.Options.{parse_set_opts}
use radixox.Command.Dispatch.{dispatch}
use radixox.Command.Dispatch.Laws.{dispatch-case}
use radixox.Command.Request.{from_slice}
use radixox.Command.Request.Laws.{request, from_slice-request}

abbrev pub get_a : List Bytes
get_a = (b'G' ∷ b'E' ∷ b'T' ∷ []) ∷ (97 ∷ []) ∷ []

-- "*2\r\n$3\r\nGET\r\n$1\r\na\r\n"
abbrev get_a_bytes : List ℕ
get_a_bytes =
    b'*' ∷ b'2' ∷ 13 ∷ 10 ∷ b'$' ∷ b'3' ∷ 13 ∷ 10 ∷ b'G' ∷ b'E' ∷ b'T' ∷ 13 ∷ 10 ∷ b'$' ∷ b'1' ∷ 13
    ∷ 10 ∷ 97 ∷ 13 ∷ 10 ∷ []

pub request_get : request get_a [] ≡ get_a_bytes
unfolding request decimal
request_get = refl

from_slice_get : from_slice arg_u64 get_a_bytes ≡ ok (some (get (97 ∷ [])))
unfolding from_slice dispatch
from_slice_get = refl

-- An argument is missing.
from_slice_short : from_slice arg_u64 (b'*' ∷ b'1' ∷ 13 ∷ 10 ∷ []) ≡ ok none
unfolding from_slice
from_slice_short = refl

-- "ex" "60" "nx"
set_opts :
    parse_set_opts ((101 ∷ 120 ∷ []) ∷ (b'6' ∷ b'0' ∷ []) ∷ (110 ∷ 120 ∷ []) ∷ [])
    ≡ some (record { ttl = some (from_secs 60); condition = if_not_exists })
unfolding parse_set_opts
set_opts = refl

-- The second letter of an option is not looked at.
set_opts_ey :
    parse_set_opts ((101 ∷ 121 ∷ []) ∷ (b'6' ∷ []) ∷ [])
    ≡ parse_set_opts ((101 ∷ 120 ∷ []) ∷ (b'6' ∷ []) ∷ [])
unfolding parse_set_opts
set_opts_ey = refl

-- "fxxxxxx"
seven_letters :
    dispatch arg_u64 ((102 ∷ 120 ∷ 120 ∷ 120 ∷ 120 ∷ 120 ∷ 120 ∷ []) ∷ []) ≡ some flush_db
unfolding dispatch
seven_letters = refl

-- "18446744073709551615"
abbrev max_digits : List ℕ
max_digits =
    b'1' ∷ b'8' ∷ b'4' ∷ b'4' ∷ b'6' ∷ b'7' ∷ b'4' ∷ b'4' ∷ b'0' ∷ b'7' ∷ b'3' ∷ b'7' ∷ b'0' ∷ b'9'
    ∷ b'5' ∷ b'5' ∷ b'1' ∷ b'6' ∷ b'1' ∷ b'5' ∷ []

from_slice-request_example : from_slice arg_u64 (request get_a []) ≡ ok (dispatch arg_u64 get_a)
from_slice-request_example =
    from_slice-request arg_u64 (b'G' ∷ b'E' ∷ b'T' ∷ []) ((97 ∷ []) ∷ []) []
      (rw request_get (omega arith))

-- "GET" and "get"
dispatch-case_example :
    dispatch arg_u64 ((b'G' ∷ b'E' ∷ b'T' ∷ []) ∷ (97 ∷ []) ∷ [])
    ≡ dispatch arg_u64 ((b'g' ∷ b'e' ∷ b't' ∷ []) ∷ (97 ∷ []) ∷ [])
dispatch-case_example =
    dispatch-case arg_u64 (b'G' ∷ b'E' ∷ b'T' ∷ []) (b'g' ∷ b'e' ∷ b't' ∷ []) ((97 ∷ []) ∷ []) refl
