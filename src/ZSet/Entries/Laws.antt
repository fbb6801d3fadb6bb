-- ===== src/ZSet/Entries/Laws.antt =====
-- What is found among ordered entries after each change.
use radixox.Common.{
  ℕ, zero, suc, ◌+◌, ◌≡◌, refl, sym, ap, ◌∙◌, subst, true, false, if◌then◌else◌, Bool-cases, inl,
  inr, List, [], ◌∷◌, none, some, same_bytes, same_bytes_eq, same_bytes_refl, same_bytes_apart,
  length, arith,
}
use radixox.BTree.{same, contains, place, erase}
use radixox.BTree.Bytes.{same-eq, bytes_order}
use radixox.BTree.Laws.{Below, IsSorted, place_nil, place_cons}
use radixox.ZSet.Entries.{Floats, Entry, entry_order, score_in, locate, remove_at}

module _ {F : Type 0} where
  -- The entries without that of the member.
  abbrev pub drop_member : List ℕ → List (Entry F) → List (Entry F)
  drop_member q [] = []
  drop_member q (e ∷ es) = if same_bytes q e.1 then es else e ∷ drop_member q es

  -- No member has two entries.
  abbrev pub Distinct : List (Entry F) → Type 0
  Distinct [] = Unit
  Distinct (e ∷ es) = (score_in e.1 es ≡ none) × Distinct es

  pub locate-none : (q : List ℕ) (es : List (Entry F)) → locate q es ≡ none → score_in q es ≡ none
  unfolding locate score_in
  locate-none q [] h = refl
  locate-none q (e ∷ es) h = ground (arith, locate-none q es)

  pub locate-some :
      (q : List ℕ) (es : List (Entry F)) (pos : ℕ) (s : F)
      → locate q es ≡ some (pos, s)
      → (score_in q es ≡ some s) × (remove_at pos es ≡ drop_member q es)
  unfolding locate score_in remove_at
  locate-some q [] pos s h = absurd (ground (arith, h))
  locate-some q (e ∷ es) zero s h = ground (arith, h)
  locate-some q (e ∷ es) (suc pos) s h = ground (arith, h, locate-some q es pos s)

  pub score_in-drop :
      (m q : List ℕ) (es : List (Entry F))
      → Distinct es
      → score_in q (drop_member m es) ≡ (if same_bytes q m then none else score_in q es)
  unfolding score_in
  score_in-drop m q [] d = ground arith
  score_in-drop m q (e ∷ es) (first, d) = elim (Bool-cases (same_bytes m e.1)) [
    | inl here ↦
        let name = same_bytes_eq m e.1 here in
        elim (Bool-cases (same_bytes q m)) [
          | inl hit ↦
              let gone : score_in q es ≡ none =
                ap (λ (a : List ℕ). score_in a es) (same_bytes_eq q m hit ∙ name) ∙ first in
              ground (arith, here, hit, gone)
          | inr miss ↦
              let miss' : same_bytes q e.1 ≡ false = sym (ap (same_bytes q) name) ∙ miss in
              ground (arith, here, miss, miss')
        ]
    | inr there ↦ elim (Bool-cases (same_bytes q e.1)) [
      | inl hit ↦ ground (arith, there, hit, same_bytes_apart q m e.1 hit there)
      | inr other ↦ ground (arith, there, other, score_in-drop m q es d)
    ]
  ]

  pub Distinct-drop : (m : List ℕ) (es : List (Entry F)) → Distinct es → Distinct (drop_member m es)
  Distinct-drop m [] d = tt
  Distinct-drop m (e ∷ es) (first, d) = elim (Bool-cases (same_bytes m e.1)) [
    | inl here ↦ rw here d
    | inr there ↦ rw there (absent, Distinct-drop m es d)
  ]
    where
      absent : score_in e.1 (drop_member m es) ≡ none
      absent = score_in-drop m e.1 es d ∙ ground (arith, first)

  pub length-drop_member :
      (m : List ℕ) (es : List (Entry F)) (s : F)
      → score_in m es ≡ some s
      → length (drop_member m es) + 1 ≡ length es
  unfolding score_in
  length-drop_member m [] s h = absurd (ground (arith, h))
  length-drop_member m (e ∷ es) s h = elim (Bool-cases (same_bytes m e.1)) [
    | inl here ↦ ground (arith, here)
    | inr there ↦ ground (arith, h, there, length-drop_member m es s)
  ]

  module _ (fl : Floats F) where
    same_names :
        (s : F) (m : List ℕ) (e : Entry F)
        → same (entry_order fl) (s, m) e ≡ true
        → same bytes_order m e.1 ≡ true
    unfolding entry_order bytes_order
    same_names s m e h =
        let one : fl.rank s ≡ fl.rank e.0 = ground (arith, h) in ground (arith, one, h)

    -- Pairs that are equal in the order have one member.
    same_member :
        (s : F) (m : List ℕ) (e : Entry F)
        → same (entry_order fl) (s, m) e ≡ true
        → same_bytes m e.1 ≡ true
    same_member s m e h =
        subst (λ (x : List ℕ). same_bytes m x ≡ true) (same-eq m e.1 (same_names s m e h))
          (same_bytes_refl m)

    pub contains_fresh :
        (s : F) (m : List ℕ) (es : List (Entry F))
        → score_in m es ≡ none
        → contains (entry_order fl) (s, m) es ≡ false
    unfolding contains score_in
    contains_fresh s m [] h = refl
    contains_fresh s m (e ∷ es) h = elim (Bool-cases (same (entry_order fl) (s, m) e)) [
      | inl equal ↦ absurd (ground (arith, h, same_member s m e equal))
      | inr apart ↦ ground (arith, h, apart, contains_fresh s m es)
    ]

    pub score_in-place :
        (s : F) (m q : List ℕ) (es : List (Entry F))
        → score_in m es ≡ none
        → score_in q (place (entry_order fl) (s, m) es)
          ≡ (if same_bytes q m then some s else score_in q es)
    unfolding score_in
    score_in-place s m q [] h = rw (place_nil (entry_order fl) (s, m)) refl
    score_in-place s m q (e ∷ es) h = elim (Bool-cases ((entry_order fl).before e (s, m))) [
      | inr later ↦ rw (place_cons (entry_order fl) (s, m) e es, later) refl
      | inl first ↦
          rw (place_cons (entry_order fl) (s, m) e es, first)
            (elim (Bool-cases (same_bytes q e.1)) [
              | inl hit ↦ ground (arith, hit, same_bytes_apart q m e.1 hit (ground (arith, h)))
              | inr other ↦ ground (arith, other, score_in-place s m q es (ground (arith, h)))
            ])
    ]

    pub Distinct-place :
        (s : F) (m : List ℕ) (es : List (Entry F))
        → score_in m es ≡ none
        → Distinct es
        → Distinct (place (entry_order fl) (s, m) es)
    unfolding score_in
    Distinct-place s m [] h d = rw (place_nil (entry_order fl) (s, m)) (refl, tt)
    Distinct-place s m (e ∷ es) h (first, d) =
        elim (Bool-cases ((entry_order fl).before e (s, m))) [
          | inr later ↦ rw (place_cons (entry_order fl) (s, m) e es, later) (h, (first, d))
          | inl ahead ↦
              rw (place_cons (entry_order fl) (s, m) e es, ahead)
                (absent, Distinct-place s m es (ground (arith, h)) d)
        ]
      where
        absent : score_in e.1 (place (entry_order fl) (s, m) es) ≡ none
        absent =
            let apart : same_bytes m e.1 ≡ false = ground (arith, h) in
            let back = same_bytes_apart e.1 m e.1 (same_bytes_refl e.1) apart in
            score_in-place s m e.1 es (ground (arith, h)) ∙ ground (arith, back, first)

    -- To remove the pair is to remove the member's entry.
    pub erase-drop :
        (s : F) (m : List ℕ) (es : List (Entry F))
        → score_in m es ≡ some s
        → erase (entry_order fl) (s, m) es ≡ drop_member m es
    unfolding erase score_in
    erase-drop s m [] h = refl
    erase-drop s m (e ∷ es) h = elim (Bool-cases (same_bytes m e.1)) [
      | inl here ↦
          let name = same_bytes_eq m e.1 here in
          let kept : e.0 ≡ s = ground (arith, h, here) in
          let self : same (entry_order fl) (s, m) e ≡ true =
            rw (← kept, name) (ground (arith, (entry_order fl).irreflexive e)) in
          ground (arith, here, self)
      | inr there ↦
          let apart : same (entry_order fl) (s, m) e ≡ false = elsewhere there in
          ground (arith, there, apart, erase-drop s m es (ground (arith, h, there)))
    ]
      where
        elsewhere : same_bytes m e.1 ≡ false → same (entry_order fl) (s, m) e ≡ false
        elsewhere there = elim (Bool-cases (same (entry_order fl) (s, m) e)) [
          | inr apart ↦ apart
          | inl equal ↦ absurd (ground (arith, there, same_member s m e equal))
        ]

    Below-drop :
        (e : Entry F) (m : List ℕ) (es : List (Entry F))
        → Below (entry_order fl) e es
        → Below (entry_order fl) e (drop_member m es)
    Below-drop e m [] b = tt
    Below-drop e m (x ∷ es) b = ground (arith, Below-drop e m es b.1)

    pub drop-IsSorted :
        (m : List ℕ) (es : List (Entry F))
        → IsSorted (entry_order fl) es
        → IsSorted (entry_order fl) (drop_member m es)
    drop-IsSorted m [] s = tt
    drop-IsSorted m (e ∷ es) s = ground (arith, drop-IsSorted m es s.1, Below-drop e m es s.0)
