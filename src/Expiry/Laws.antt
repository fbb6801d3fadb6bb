-- ===== src/Expiry/Laws.antt =====
-- The two fields of the packed word do not disturb one another.
use radixox.Common.{
  ℕ, ◌+◌, ◌*◌, ◌/◌, ◌^◌, ◌≤◌, ◌<◌, ◌≡◌, false, ltb, ◌==◌, if◌then◌else◌, Option, none, some, panic,
  arith, Returns,
}
use radixox.Expiry.{
  no_expiracy_bits, no_expiracy, exp, parent_radix, does_expire, set_exp, set_no_expiracy, new,
  is_expired,
}

-- What a stored time means: the largest 56-bit number stands for "never".
abbrev pub time : ℕ → Option ℕ
time e = if e == no_expiracy_bits then none else some e

-- The word reads as the time `e` and the radix `r`.
pub record Packs (e : Option ℕ) (r : ℕ) (inner : ℕ) : Type 0 where
  pub time_field : exp inner ≡ e
  pub radix_field : parent_radix inner ≡ r
  pub word : inner < 2 ^ 64

-- Setting a time of at most 56 bits in a 64-bit word does not panic, and changes the time alone.
pub set_exp-Packs :
    (inner e : ℕ)
    → inner < 2 ^ 64
    → e < 2 ^ 56
    → Returns (set_exp inner e) (Packs (time e) (parent_radix inner))
unfolding set_exp exp parent_radix
set_exp-Packs inner e h small = (inner / 2 ^ 56 * 2 ^ 56 + e, ground arith, ground arith)

-- A new word for a time of at most 56 bits and a byte as radix reads as that time and that radix.
pub new-Packs : (e r : ℕ) → e < 2 ^ 56 → r < 256 → Returns (new e r) (Packs (time e) r)
unfolding new exp parent_radix
new-Packs e r small byte = (r * 2 ^ 56 + e, ground arith, ground arith)

pub set_no_expiracy-Packs :
    (inner : ℕ) → inner < 2 ^ 64 → Packs none (parent_radix inner) (set_no_expiracy inner)
unfolding set_no_expiracy exp parent_radix
set_no_expiracy-Packs inner h = ground arith

pub no_expiracy-Packs : (r : ℕ) → r < 256 → Packs none r (no_expiracy r)
unfolding no_expiracy exp parent_radix
no_expiracy-Packs r byte = ground arith

-- A time of more than 56 bits makes both writers panic.
pub long_time_panics : (inner r e : ℕ) → 2 ^ 56 ≤ e → (set_exp inner e ≡ panic) × (new e r ≡ panic)
unfolding set_exp new
long_time_panics inner r e h = ground arith

-- A word without a time is never expired; one with a time is expired when that time is less than
-- the current one.
pub is_expired-exp :
    (inner now : ℕ)
    → (does_expire inner ≡ false → is_expired inner now ≡ false)
      × ((e : ℕ) → exp inner ≡ some e → is_expired inner now ≡ ltb e now)
unfolding does_expire is_expired exp
is_expired-exp inner now = (λ h. ground arith, λ e h. ground arith)
