-- ===== src/Hash/Entries/Swap.antt =====
-- What is found among the entries after `swap_remove`.
use radixox.Common.{
  ℕ, zero, suc, ◌≤◌, ◌≡◌, refl, ap, ◌∙◌, inl, inr, false, List, [], ◌∷◌, none, some, same_bytes,
  same_bytes_eq, same_bytes_apart, same_bytes_sym, arith, Bool-cases, length, swap_remove, last_or,
  init, get_or,
}
use radixox.Hash.Entries.{Fields, find, position}
use radixox.Hash.Entries.Laws.{Distinct, deleted, same_q}

last_or-apart :
    (r : List ℕ) (e : List ℕ × List ℕ) (es : Fields)
    → find r (e ∷ es) ≡ none
    → same_bytes r (last_or e es).0 ≡ false
last_or-apart r e [] h = ground (arith, h)
last_or-apart r e (x ∷ es) h = last_or-apart r x es (ground (arith, h))

find-last_first :
    (q : List ℕ) (e : List ℕ × List ℕ) (es : Fields)
    → Distinct (e ∷ es)
    → find q (last_or e es ∷ init e es) ≡ find q (e ∷ es)
find-last_first q e [] d = refl
find-last_first q e (x ∷ es) (first, d) = elim (Bool-cases (same_bytes q e.0)) [
  | inl hit ↦
      let apart : same_bytes q (last_or x es).0 ≡ false =
        ap (λ (a : List ℕ). same_bytes a (last_or x es).0) (same_bytes_eq q e.0 hit)
        ∙ last_or-apart e.0 x es first in
      ground (arith, hit, apart)
  | inr other ↦ ground (arith, other, find-last_first q x es d)
]

pub find-swap_remove :
    (f q : List ℕ) (p : ℕ) (es : Fields)
    → Distinct es
    → position f es ≡ some p
    → find q (swap_remove es p) ≡ deleted f q (find q es)
find-swap_remove f q p [] d h = absurd (ground (arith, h))
find-swap_remove f q zero (e ∷ []) d h = elim (Bool-cases (same_bytes f e.0)) [
  | inl here ↦ ground (arith, here, same_q q f e.0 here)
  | inr there ↦ absurd (ground (arith, there, h))
]
find-swap_remove f q zero (e ∷ x ∷ es) (first, d) h = elim (Bool-cases (same_bytes f e.0)) [
  | inr there ↦ absurd (ground (arith, there, h))
  | inl here ↦ elim (Bool-cases (same_bytes q e.0)) [
    | inr other ↦ ground (arith, other, same_q q f e.0 here, find-last_first q x es d)
    | inl hit ↦
        let gone : find q (x ∷ es) ≡ none =
          ap (λ (a : List ℕ). find a (x ∷ es)) (same_bytes_eq q e.0 hit) ∙ first in
        let same = same_q q f e.0 here in
        find-last_first q x es d ∙ gone ∙ ground (arith, hit, same)
  ]
]
find-swap_remove f q (suc p) (e ∷ es) (first, d) h = elim (Bool-cases (same_bytes f e.0)) [
  | inl here ↦ absurd (ground (arith, here, h))
  | inr there ↦
      let h' : position f es ≡ some p = ground (arith, there, h) in
      let more = find-swap_remove f q p es d h' in
      elim (Bool-cases (same_bytes q e.0)) [
        | inl hit ↦ ground (arith, hit, same_bytes_apart q f e.0 hit there)
        | inr other ↦ ground (arith, other, more)
      ]
]

Distinct-last_first :
    (e : List ℕ × List ℕ) (es : Fields) → Distinct (e ∷ es) → Distinct (last_or e es ∷ init e es)
Distinct-last_first e [] d = d
Distinct-last_first e (x ∷ es) (first, d) =
    let (last, more) = Distinct-last_first x es d in
    let apart = same_bytes_sym e.0 (last_or x es).0 (last_or-apart e.0 x es first) in
    let absent : find e.0 (init x es) ≡ none =
      ground (arith, find-last_first e.0 x es d, first, last_or-apart e.0 x es first) in
    (ground (arith, apart, last), (absent, more))

pub Distinct-swap_remove :
    (f : List ℕ) (p : ℕ) (es : Fields)
    → Distinct es
    → position f es ≡ some p
    → Distinct (swap_remove es p)
Distinct-swap_remove f p [] d h = tt
Distinct-swap_remove f zero (e ∷ []) d h = tt
Distinct-swap_remove f zero (e ∷ x ∷ es) (first, d) h = Distinct-last_first x es d
Distinct-swap_remove f (suc p) (e ∷ es) (first, d) h = elim (Bool-cases (same_bytes f e.0)) [
  | inl here ↦ absurd (ground (arith, here, h))
  | inr there ↦
      let h' : position f es ≡ some p = ground (arith, there, h) in
      (ground (arith, find-swap_remove f e.0 p es d h', first), Distinct-swap_remove f p es d h')
]

-- A position is that of an entry of the field.
pub position-find :
    (f : List ℕ) (p : ℕ) (es : Fields) (x : List ℕ × List ℕ)
    → position f es ≡ some p
    → find f es ≡ some (get_or es p x).1
position-find f p [] x h = absurd (ground (arith, h))
position-find f zero (e ∷ es) x h = elim (Bool-cases (same_bytes f e.0)) [
  | inl here ↦ ground (arith, here)
  | inr there ↦ absurd (ground (arith, there, h))
]
position-find f (suc p) (e ∷ es) x h = elim (Bool-cases (same_bytes f e.0)) [
  | inl here ↦ absurd (ground (arith, here, h))
  | inr there ↦
      let h' : position f es ≡ some p = ground (arith, there, h) in
      ground (arith, there, position-find f p es x h')
]

pub position-none : (f : List ℕ) (es : Fields) → position f es ≡ none → find f es ≡ none
position-none f [] h = refl
position-none f (e ∷ es) h = elim (Bool-cases (same_bytes f e.0)) [
  | inl here ↦ absurd (ground (arith, here, h))
  | inr there ↦
      let h' : position f es ≡ none = ground (arith, there, h) in
      ground (arith, there, position-none f es h')
]

length-init : (e : List ℕ × List ℕ) (es : Fields) → length (init e es) ≡ length es
length-init e [] = refl
length-init e (x ∷ es) = ap suc (length-init x es)

pub length-swap_remove_le : (es : Fields) (p : ℕ) → length (swap_remove es p) ≤ length es
length-swap_remove_le [] p = omega arith
length-swap_remove_le (e ∷ []) zero = omega arith
length-swap_remove_le (e ∷ x ∷ es) zero = omega (arith, length-init x es)
length-swap_remove_le (e ∷ es) (suc p) = omega (arith, length-swap_remove_le es p)
