-- ===== src/Expiry.antt =====
-- `ExpAndRadix` of oxidart/src/lib.rs: one `u64` that holds, in its low 56 bits, the second after
-- which a node expires, all ones for "never", and in its high 8 bits the radix under which the
-- node's parent refers to it. The masks are written as remainder and quotient by 2 ^ 56.
pub mod Laws
use radixox.Common.{
  ℕ, ◌+◌, ◌-◌, ◌*◌, ◌/◌, ◌%◌, ◌^◌, Bool, not, ltb, ◌==◌, if◌then◌else◌, Option, none, some, Run, ok,
  assert, ◌>>=◌, ◌>>◌,
}

abbrev pub no_expiracy_bits : ℕ
no_expiracy_bits = 0x00ff_ffff_ffff_ffff

abbrev pub exp_bits : ℕ → ℕ
exp_bits inner = inner % 2 ^ 56

abbrev pub radix_bits : ℕ → ℕ
radix_bits inner = inner / 2 ^ 56 * 2 ^ 56

unfoldable pub no_expiracy : ℕ → ℕ
no_expiracy parent_radix = parent_radix * 2 ^ 56 + no_expiracy_bits

unfoldable pub exp : ℕ → Option ℕ
exp inner = let e = exp_bits inner in if e == no_expiracy_bits then none else some e

unfoldable pub parent_radix : ℕ → ℕ
parent_radix inner = radix_bits inner / 2 ^ 56 % 256

unfoldable pub does_expire : ℕ → Bool
does_expire inner = not (exp_bits inner == no_expiracy_bits)

-- The assertion refuses a time that needs more than 56 bits.
unfoldable pub set_exp : ℕ → ℕ → Run ℕ
set_exp inner e = do assert (radix_bits e == 0); ok (radix_bits inner + e)

unfoldable pub set_no_expiracy : ℕ → ℕ
set_no_expiracy inner = radix_bits inner + no_expiracy_bits

unfoldable pub new : ℕ → ℕ → Run ℕ
new e parent_radix = do assert (radix_bits e == 0); ok (parent_radix * 2 ^ 56 + e)

-- `Node::is_expired`: the expiry is a second that has passed.
unfoldable pub is_expired : ℕ → ℕ → Bool
is_expired inner now = elim (exp inner) [ none ↦ Bool.false | some e ↦ ltb e now ]
