-- ===== src/Common/Bytes.antt =====
-- Equality of byte strings.
use Prim.Native.Nat.{ℕ}
use mathlib.Core.Path.{◌≡◌, refl, ap}
use mathlib.Core.Logic.{inl, inr}
use mathlib.Core.Bool.{Bool, true, false, ◌&&◌}
use mathlib.Core.List.{List, [], ◌∷◌}
use native.Mathlib.Omega.{arith}
use radixox.Common.Tests.{◌==◌, ==_refl, Bool-cases}

-- `==` on byte strings
abbrev pub same_bytes : List ℕ → List ℕ → Bool
same_bytes [] [] = true
same_bytes [] (c ∷ cs) = false
same_bytes (b ∷ bs) [] = false
same_bytes (b ∷ bs) (c ∷ cs) = b == c && same_bytes bs cs

pub same_bytes_eq : (a b : List ℕ) → same_bytes a b ≡ true → a ≡ b
same_bytes_eq [] [] h = refl
same_bytes_eq [] (c ∷ cs) h = absurd (ground (arith, h))
same_bytes_eq (b ∷ bs) [] h = absurd (ground (arith, h))
same_bytes_eq (b ∷ bs) (c ∷ cs) h =
    let head : b ≡ c = ground (arith, h) in
    let tail = same_bytes_eq bs cs (ground (arith, h)) in rw (head, tail) refl

pub same_bytes_refl : (a : List ℕ) → same_bytes a a ≡ true
same_bytes_refl [] = refl
same_bytes_refl (b ∷ bs) = rw (==_refl b) (same_bytes_refl bs)

pub same_bytes_apart :
    (q ch x : List ℕ) → same_bytes q x ≡ true → same_bytes ch x ≡ false → same_bytes q ch ≡ false
same_bytes_apart q ch x hit other = elim (Bool-cases (same_bytes q ch)) [
  | inr ne ↦ ne
  | inl same ↦
      let moved : same_bytes q x ≡ same_bytes ch x =
        ap (λ (a : List ℕ). same_bytes a x) (same_bytes_eq q ch same) in
      absurd (ground (arith, hit, other, moved))
]

pub same_bytes_sym : (a b : List ℕ) → same_bytes a b ≡ false → same_bytes b a ≡ false
same_bytes_sym a b h = elim (Bool-cases (same_bytes b a)) [
  | inr other ↦ other
  | inl same ↦
      let moved : same_bytes b b ≡ same_bytes a b =
        ap (λ (c : List ℕ). same_bytes c b) (same_bytes_eq b a same) in
      absurd (ground (arith, h, moved, same_bytes_refl b))
]
