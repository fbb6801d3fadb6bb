-- ===== src/Common/Panic.antt =====
-- Code that may panic: a failed `assert!`, `expect` or index.
use Prim.Native.Nat.{ℕ}
use mathlib.Core.Path.{◌≡◌}
use mathlib.Core.Bool.{Bool, true, false}
use mathlib.Core.Option.{Option, none, some}

pub data Run {ℓ} (Out : Type ℓ) : Type ℓ where
  panic : Run Out
  ok : Out → Run Out

-- `assert!(b)`
abbrev pub assert : Bool → Run (Unit {0})
assert true = ok tt
assert false = panic

-- `o.expect(..)`
abbrev pub expect {ℓ} : {Out : Type ℓ} → Option Out → Run Out
expect none = panic
expect (some out) = ok out

-- Nothing runs after a panic.
infixl 5 ◌>>=◌ ◌>>◌
abbrev pub ◌>>=◌ {κ ℓ} :
    {Out : Type κ} {Next : Type ℓ} (run : Run Out) (rest : Out → Run Next) → Run Next
panic >>= rest = panic
ok out >>= rest = rest out

abbrev pub ◌>>◌ {ℓ} : {Next : Type ℓ} → Run (Unit {0}) → Run Next → Run Next
run >> rest = run >>= λ _. rest

-- The run ends without a panic, in a value that satisfies the predicate.
abbrev pub Returns {κ ℓ} : {Out : Type κ} (run : Run Out) (Good : Out → Type ℓ) → Type (κ ⊔ ℓ)
Returns {Out} run Good = (out : Out) × (run ≡ ok out) × Good out

-- `u32::MAX`, which index fields hold for "no index"
abbrev pub no_index : ℕ
no_index = 4294967295
