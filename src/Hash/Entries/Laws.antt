-- ===== src/Hash/Entries/Laws.antt =====
-- What is found among the entries after each change.
use radixox.Common.{
  ℕ, ◌≡◌, refl, sym, subst, ap, ◌∙◌, inl, inr, true, if◌then◌else◌, List, [], ◌∷◌, ◌++◌, Option,
  none, some, same_bytes, same_bytes_eq, same_bytes_refl, same_bytes_apart, arith, Bool-cases,
  Option-cases,
}
use radixox.Hash.Entries.{find, overwrite, put, put_all, erase}

-- A hit on an entry of the field itself, or on another one.
pub same_q : (q f k : List ℕ) → same_bytes f k ≡ true → same_bytes q f ≡ same_bytes q k
same_q q f k here = ap (same_bytes q) (same_bytes_eq f k here)

module _ {V : Type 0} where
  -- No field has two entries.
  abbrev pub Distinct : List (List ℕ × V) → Type 0
  Distinct [] = Unit
  Distinct (e ∷ es) = (find e.0 es ≡ none) × Distinct es

  -- The outcome of writing, and of deleting, a field.
  abbrev pub written : List ℕ → V → List ℕ → Option V → Option V
  written f v q o = if same_bytes q f then some v else o

  abbrev pub deleted : List ℕ → List ℕ → Option V → Option V
  deleted f q o = if same_bytes q f then none else o

  find-overwrite :
      (f : List ℕ) (v : V) (q : List ℕ) (w : V) (es : List (List ℕ × V))
      → find f es ≡ some w
      → find q (overwrite f v es) ≡ written f v q (find q es)
  find-overwrite f v q w [] h = absurd (ground (arith, h))
  find-overwrite f v q w (e ∷ es) h = elim (Bool-cases (same_bytes f e.0)) [
    | inl here ↦ ground (arith, here, same_q q f e.0 here)
    | inr there ↦ elim (Bool-cases (same_bytes q e.0)) [
      | inl hit ↦ ground (arith, there, hit, same_bytes_apart q f e.0 hit there)
      | inr other ↦
          let h' : find f es ≡ some w = ground (arith, there, h) in
          ground (arith, there, other, find-overwrite f v q w es h')
    ]
  ]

  find-push :
      (f : List ℕ) (v : V) (q : List ℕ) (es : List (List ℕ × V))
      → find f es ≡ none
      → find q (es ++ (f, v) ∷ []) ≡ written f v q (find q es)
  find-push f v q [] h = refl
  find-push f v q (e ∷ es) h = elim (Bool-cases (same_bytes f e.0)) [
    | inl here ↦ absurd (ground (arith, here, h))
    | inr there ↦ elim (Bool-cases (same_bytes q e.0)) [
      | inl hit ↦ ground (arith, hit, same_bytes_apart q f e.0 hit there)
      | inr other ↦
          let h' : find f es ≡ none = ground (arith, there, h) in
          ground (arith, other, find-push f v q es h')
    ]
  ]

  pub find-put :
      (f : List ℕ) (v : V) (q : List ℕ) (es : List (List ℕ × V))
      → find q (put f v es) ≡ written f v q (find q es)
  find-put f v q es = elim (Option-cases (find f es)) [
    | inl off ↦
        let new : put f v es ≡ es ++ (f, v) ∷ [] = ground (arith, off) in
        rw new (find-push f v q es off)
    | inr (w, on) ↦
        let old : put f v es ≡ overwrite f v es = ground (arith, on) in
        rw old (find-overwrite f v q w es on)
  ]

  Distinct-overwrite :
      (f : List ℕ) (v w : V) (es : List (List ℕ × V))
      → find f es ≡ some w
      → Distinct es
      → Distinct (overwrite f v es)
  Distinct-overwrite f v w [] h d = tt
  Distinct-overwrite f v w (e ∷ es) h (first, d) = elim (Bool-cases (same_bytes f e.0)) [
    | inl here ↦ rw here (first, d)
    | inr there ↦
        let h' : find f es ≡ some w = ground (arith, there, h) in
        let apart = same_bytes_apart e.0 f e.0 (same_bytes_refl e.0) there in
        rw there (
          ground (arith, find-overwrite f v e.0 w es h', apart, first),
          Distinct-overwrite f v w es h' d,
        )
  ]

  Distinct-push :
      (f : List ℕ) (v : V) (es : List (List ℕ × V))
      → find f es ≡ none
      → Distinct es
      → Distinct (es ++ (f, v) ∷ [])
  Distinct-push f v [] h d = (refl, tt)
  Distinct-push f v (e ∷ es) h (first, d) = elim (Bool-cases (same_bytes f e.0)) [
    | inl here ↦ absurd (ground (arith, here, h))
    | inr there ↦
        let h' : find f es ≡ none = ground (arith, there, h) in
        let apart = same_bytes_apart e.0 f e.0 (same_bytes_refl e.0) there in
        (ground (arith, find-push f v e.0 es h', apart, first), Distinct-push f v es h' d)
  ]

  pub Distinct-put :
      (f : List ℕ) (v : V) (es : List (List ℕ × V)) → Distinct es → Distinct (put f v es)
  Distinct-put f v es d = elim (Option-cases (find f es)) [
    | inl off ↦
        let new : put f v es ≡ es ++ (f, v) ∷ [] = ground (arith, off) in
        subst Distinct (sym new) (Distinct-push f v es off d)
    | inr (w, on) ↦
        let old : put f v es ≡ overwrite f v es = ground (arith, on) in
        subst Distinct (sym old) (Distinct-overwrite f v w es on d)
  ]

  abbrev first_of : Option V → Option V → Option V
  first_of none o = o
  first_of (some v) o = some v

  first_of-none : (o : Option V) → first_of o none ≡ o
  first_of-none none = refl
  first_of-none (some v) = refl

  find-put_all :
      (q : List ℕ) (es m : List (List ℕ × V))
      → Distinct es
      → find q (put_all es m) ≡ first_of (find q es) (find q m)
  find-put_all q [] m d = refl
  find-put_all q (e ∷ es) m (first, d) = find-put_all q es (put e.0 e.1 m) d ∙ step
    where
      step : first_of (find q es) (find q (put e.0 e.1 m)) ≡ first_of (find q (e ∷ es)) (find q m)
      step = elim (Bool-cases (same_bytes q e.0)) [
        | inl hit ↦
            let gone : find q es ≡ none =
              ap (λ (a : List ℕ). find a es) (same_bytes_eq q e.0 hit) ∙ first in
            ground (arith, hit, gone, find-put e.0 e.1 q m)
        | inr other ↦ ground (arith, other, find-put e.0 e.1 q m)
      ]

  -- The map that is made of a vector has its fields.
  pub find-put_all_nil :
      (q : List ℕ) (es : List (List ℕ × V)) → Distinct es → find q (put_all es []) ≡ find q es
  find-put_all_nil q es d = find-put_all q es [] d ∙ first_of-none (find q es)

  pub Distinct-put_all : (es m : List (List ℕ × V)) → Distinct m → Distinct (put_all es m)
  Distinct-put_all [] m d = d
  Distinct-put_all (e ∷ es) m d = Distinct-put_all es (put e.0 e.1 m) (Distinct-put e.0 e.1 m d)

  pub find-erase :
      (f q : List ℕ) (es : List (List ℕ × V)) → find q (erase f es) ≡ deleted f q (find q es)
  find-erase f q [] = ground arith
  find-erase f q (e ∷ es) = elim (Bool-cases (same_bytes f e.0)) [
    | inl here ↦ ground (arith, here, same_q q f e.0 here, find-erase f q es)
    | inr there ↦ elim (Bool-cases (same_bytes q e.0)) [
      | inl hit ↦ ground (arith, there, hit, same_bytes_apart q f e.0 hit there)
      | inr other ↦ ground (arith, there, other, find-erase f q es)
    ]
  ]

  pub Distinct-erase : (f : List ℕ) (es : List (List ℕ × V)) → Distinct es → Distinct (erase f es)
  Distinct-erase f [] d = tt
  Distinct-erase f (e ∷ es) (first, d) =
      let still : find e.0 (erase f es) ≡ none = ground (arith, find-erase f e.0 es, first) in
      ground (arith, still, Distinct-erase f es d)
