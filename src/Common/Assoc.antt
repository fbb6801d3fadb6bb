-- ===== src/Common/Assoc.antt =====
-- Entries under distinct numbers, searched from the front, as the child tables keep them.
use Prim.Native.Nat.{ℕ, zero, suc, ◌<◌}
use mathlib.Core.Path.{◌≡◌, refl, ap}
use mathlib.Core.Logic.{◌≢◌, ◌⊎◌}
use mathlib.Core.List.{List, [], ◌∷◌, ◌++◌}
use mathlib.Core.Option.{Option, none, some}
use native.Mathlib.Omega.{arith}
use radixox.Common.Tests.{◌==◌, if◌then◌else◌}
use radixox.Common.Lists.{length, get_or, last_or, init, last_first, swap_remove}

abbrev pub succ? : Option ℕ → Option ℕ
succ? none = none
succ? (some i) = some (suc i)

module _ {ℓ} {V : Type ℓ} where
  abbrev pub lookup : ℕ → List (ℕ × V) → Option V
  lookup r [] = none
  lookup r (e ∷ es) = if e.0 == r then some e.1 else lookup r es

  -- `iter().position(|e| e.radix == r)`
  abbrev pub position : ℕ → List (ℕ × V) → Option ℕ
  position r [] = none
  position r (e ∷ es) = if e.0 == r then some 0 else succ? (position r es)

  abbrev pub Distinct : List (ℕ × V) → Type ℓ
  Distinct [] = Unit
  Distinct (e ∷ es) = (lookup e.0 es ≡ none) × Distinct es

  pub lookup-push :
      (r q : ℕ) (v : V) (es : List (ℕ × V))
      → lookup r es ≡ none
      → lookup q (es ++ (r, v) ∷ []) ≡ (if r == q then some v else lookup q es)
  lookup-push r q v [] h = refl
  lookup-push r q v (e ∷ es) h = ground (arith, lookup-push r q v es)

  pub Distinct-push :
      (r : ℕ) (v : V) (es : List (ℕ × V))
      → lookup r es ≡ none
      → Distinct es
      → Distinct (es ++ (r, v) ∷ [])
  Distinct-push r v [] h d = (refl, tt)
  Distinct-push r v (e ∷ es) h d = ground (arith, lookup-push r e.0 v es, Distinct-push r v es)

  last_or-ne :
      (r : ℕ) (e : ℕ × V) (es : List (ℕ × V)) → lookup r (e ∷ es) ≡ none → (last_or e es).0 ≢ r
  last_or-ne r e [] h = ground arith
  last_or-ne r e (x ∷ es) h = last_or-ne r x es (ground arith)

  lookup-last_first :
      (q : ℕ) (e : ℕ × V) (es : List (ℕ × V))
      → Distinct (e ∷ es)
      → lookup q (last_or e es ∷ init e es) ≡ lookup q (e ∷ es)
  lookup-last_first q e [] d = refl
  lookup-last_first q e (x ∷ es) d =
      ground (arith, lookup-last_first q x es d.1, last_or-ne e.0 x es d.0)

  Distinct-last_first :
      (e : ℕ × V) (es : List (ℕ × V)) → Distinct (e ∷ es) → Distinct (last_or e es ∷ init e es)
  Distinct-last_first e [] d = d
  Distinct-last_first e (x ∷ es) d =
      ground (
        arith,
        Distinct-last_first x es d.1,
        last_or-ne e.0 x es d.0,
        lookup-last_first e.0 x es d.1,
      )

  pub position-lookup : (r : ℕ) (es : List (ℕ × V)) → position r es ≡ none → lookup r es ≡ none
  position-lookup r [] h = refl
  position-lookup r (e ∷ es) h = ground (arith, position-lookup r es)

  pub position-lt : (r p : ℕ) (es : List (ℕ × V)) → position r es ≡ some p → p < length es
  position-lt r p [] h = cc
  position-lt r zero (e ∷ es) h = omega arith
  position-lt r (suc p) (e ∷ es) h = ground (arith, position-lt r p es)

  pub lookup-swap_remove :
      (r q p : ℕ) (es : List (ℕ × V))
      → Distinct es
      → position r es ≡ some p
      → lookup q (swap_remove es p) ≡ (if r == q then none else lookup q es)
  lookup-swap_remove r q p [] d h = cc
  lookup-swap_remove r q zero (e ∷ []) d h = ground arith
  lookup-swap_remove r q zero (e ∷ x ∷ es) d h = ground (arith, lookup-last_first q x es d.1)
  lookup-swap_remove r q (suc p) (e ∷ es) d h = ground (arith, lookup-swap_remove r q p es d.1)

  pub Distinct-swap_remove :
      (r p : ℕ) (es : List (ℕ × V))
      → Distinct es
      → position r es ≡ some p
      → Distinct (swap_remove es p)
  Distinct-swap_remove r p [] d h = cc
  Distinct-swap_remove r zero (e ∷ []) d h = tt
  Distinct-swap_remove r zero (e ∷ x ∷ es) d h = Distinct-last_first x es d.1
  Distinct-swap_remove r (suc p) (e ∷ es) d h =
      ground (arith, Distinct-swap_remove r p es d.1, lookup-swap_remove r e.0 p es d.1)

  pub length-swap_remove :
      (p : ℕ) (es : List (ℕ × V)) → p < length es → suc (length (swap_remove es p)) ≡ length es
  length-swap_remove p [] h = elim h [ ]
  length-swap_remove zero (e ∷ es) h = ap suc (length-last_first es)
    where
      length-init : (x : ℕ × V) (xs : List (ℕ × V)) → length (init x xs) ≡ length xs
      length-init x [] = refl
      length-init x (y ∷ ys) = ap suc (length-init y ys)

      length-last_first : (xs : List (ℕ × V)) → length (last_first xs) ≡ length xs
      length-last_first [] = refl
      length-last_first (x ∷ xs) = ap suc (length-init x xs)
  length-swap_remove (suc p) (e ∷ es) h = ap suc (length-swap_remove p es (omega arith))

  -- The value at the position that a search gives is the one that a lookup gives.
  pub position-get :
      (r p : ℕ) (es : List (ℕ × V)) (d : ℕ × V)
      → position r es ≡ some p
      → lookup r es ≡ some (get_or es p d).1
  position-get r p [] d h = cc
  position-get r zero (e ∷ es) d h = ground arith
  position-get r (suc p) (e ∷ es) d h = ground (arith, position-get r p es d)

  -- Two tables searched one after the other.
  abbrev pub or_lookup : Option V → Option V → Option V
  or_lookup none o = o
  or_lookup (some v) o = some v

  pub lookup-append :
      (q : ℕ) (xs ys : List (ℕ × V)) → lookup q (xs ++ ys) ≡ or_lookup (lookup q xs) (lookup q ys)
  lookup-append q [] ys = refl
  lookup-append q (e ∷ xs) ys = ground (arith, lookup-append q xs ys)

  -- No radix is in both.
  abbrev pub Apart : List (ℕ × V) → List (ℕ × V) → Type ℓ
  Apart xs ys = (q : ℕ) → (lookup q xs ≡ none) ⊎ (lookup q ys ≡ none)
