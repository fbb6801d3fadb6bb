-- ===== src/Command/Args.antt =====
-- The numbers among the arguments: `arg_u64` and `arg_i64` of radixox-lib/src/cmd.rs.
pub mod Laws
use radixox.Common.{
  ℕ, zero, suc, ◌+◌, ◌-◌, ◌*◌, ◌^◌, Bool, true, false, ltb, ◌==◌, if◌then◌else◌, List, [], ◌∷◌,
  Option, none, some, is_digit, ℤ, pos, neg, checked,
}

-- `o?`, in a function that returns an option
infixl 5 ◌>>=◌
abbrev pub ◌>>=◌ {ℓ κ} : {A : Type ℓ} {B : Type κ} → Option A → (A → Option B) → Option B
none >>= f = none
some a >>= f = f a

-- `n.checked_mul(10)?.checked_add(d)?`, below the number `bound`
abbrev pub checked_step : ℕ → ℕ → ℕ → Option ℕ
checked_step bound n d = do
  m ← if ltb (n * 10) bound then some (n * 10) else none
  if ltb (m + d) bound then some (m + d) else none

-- The loop over the digits.
pub digits_loop : ℕ → ℕ → List ℕ → Option ℕ
digits_loop bound n [] = some n
digits_loop bound n (b ∷ s) =
    let next = checked_step bound n (b - b'0') >>= λ m. digits_loop bound m s in
    if is_digit b then next else none

unfoldable pub arg_u64 : List ℕ → Option ℕ
unfolding digits_loop
arg_u64 [] = none
arg_u64 (b ∷ s) = digits_loop (2 ^ 64) 0 (b ∷ s)

-- The digits are read as an `i64`, before the sign is applied.
pub unsigned : List ℕ → Option ℕ
unfolding digits_loop
unsigned [] = none
unsigned (b ∷ s) = digits_loop (2 ^ 63) 0 (b ∷ s)

unfoldable pub arg_i64 : List ℕ → Option ℤ
unfolding unsigned neg
arg_i64 [] = none
arg_i64 (b ∷ s) =
    if b == b'-'
    then (do n ← unsigned s; checked (neg (pos n)))
    else (do n ← unsigned (b ∷ s); some (pos n))
