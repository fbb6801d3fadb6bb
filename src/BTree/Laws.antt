-- ===== src/BTree/Laws.antt =====
-- Insertion and removal keep a sorted list sorted, without equal elements.
use radixox.Common.{
  ◌+◌, ◌≡◌, refl, true, false, not, ◌&&◌, ◌||◌, if◌then◌else◌, Bool-cases, inl, inr, List, [], ◌∷◌,
  length, arith,
}
use radixox.BTree.{Order, same, contains, place, erase}

module _ {ℓ} {A : Type ℓ} (o : Order A) where
  -- `x` stands before every element.
  abbrev pub Below : A → List A → Type 0
  Below x [] = Unit
  Below x (y ∷ ys) = (o.before x y ≡ true) × Below x ys

  -- Each element stands before all later ones.
  abbrev pub IsSorted : List A → Type 0
  IsSorted [] = Unit
  IsSorted (x ∷ xs) = Below x xs × IsSorted xs

  pub place_nil : (e : A) → place o e [] ≡ e ∷ []
  unfolding place
  place_nil e = refl

  -- The first element decides where the place is.
  pub place_cons :
      (e x : A) (xs : List A)
      → place o e (x ∷ xs) ≡ (if o.before x e then x ∷ place o e xs else e ∷ x ∷ xs)
  unfolding place
  place_cons e x xs = ground arith

  Below-trans : (x y : A) (ys : List A) → o.before x y ≡ true → Below y ys → Below x ys
  Below-trans x y [] h b = tt
  Below-trans x y (z ∷ zs) h b = (o.transitive x y z h b.0, Below-trans x y zs h b.1)

  Below-place : (x e : A) (ys : List A) → o.before x e ≡ true → Below x ys → Below x (place o e ys)
  Below-place x e [] h b = rw (place_nil e) (h, tt)
  Below-place x e (y ∷ ys) h b = elim (Bool-cases (o.before y e)) [
    | inl first ↦ rw (place_cons e y ys, first) (b.0, Below-place x e ys h b.1)
    | inr later ↦ rw (place_cons e y ys, later) (h, b)
  ]

  pub place-IsSorted :
      (e : A) (xs : List A) → IsSorted xs → contains o e xs ≡ false → IsSorted (place o e xs)
  unfolding contains
  place-IsSorted e [] s new = rw (place_nil e) (tt, tt)
  place-IsSorted e (x ∷ xs) s new = elim (Bool-cases (o.before x e)) [
    | inl first ↦
        rw (place_cons e x xs, first)
          (Below-place x e xs first s.0, place-IsSorted e xs s.1 (ground (arith, new, first)))
    | inr later ↦
        let ahead : o.before e x ≡ true = ground (arith, new, later) in
        rw (place_cons e x xs, later) ((ahead, Below-trans e x xs ahead s.0), s)
  ]

  pub length-place : (e : A) (xs : List A) → length (place o e xs) ≡ length xs + 1
  length-place e [] = rw (place_nil e) refl
  length-place e (x ∷ xs) = elim (Bool-cases (o.before x e)) [
    | inl first ↦ rw (place_cons e x xs, first) (omega (arith, length-place e xs))
    | inr later ↦ rw (place_cons e x xs, later) (omega arith)
  ]

  Below-erase : (x e : A) (ys : List A) → Below x ys → Below x (erase o e ys)
  unfolding erase
  Below-erase x e [] b = tt
  Below-erase x e (y ∷ ys) b = ground (arith, Below-erase x e ys b.1)

  pub erase-IsSorted : (e : A) (xs : List A) → IsSorted xs → IsSorted (erase o e xs)
  unfolding erase
  erase-IsSorted e [] s = tt
  erase-IsSorted e (x ∷ xs) s = ground (arith, erase-IsSorted e xs s.1, Below-erase x e xs s.0)

  pub contains-place :
      (q e : A) (xs : List A) → contains o q (place o e xs) ≡ (same o q e || contains o q xs)
  unfolding contains
  contains-place q e [] = rw (place_nil e) (ground arith)
  contains-place q e (x ∷ xs) = elim (Bool-cases (o.before x e)) [
    | inl first ↦ rw (place_cons e x xs, first) (ground (arith, contains-place q e xs))
    | inr later ↦ rw (place_cons e x xs, later) (ground arith)
  ]

  -- What stands before all elements is not among them.
  pub Below-apart : (x : A) (ys : List A) → Below x ys → contains o x ys ≡ false
  unfolding contains
  Below-apart x [] b = refl
  Below-apart x (y ∷ ys) b = ground (arith, b.0, Below-apart x ys b.1)

  module _ (antisymmetric : (a b : A) → same o a b ≡ true → a ≡ b) where
    contains-tail :
        (q e x : A) (xs : List A)
        → Below x xs
        → e ≡ x
        → contains o q xs ≡ (not (same o q e) && contains o q (x ∷ xs))
    unfolding contains
    contains-tail q e x xs b p = elim (Bool-cases (same o q x)) [
      | inl hit ↦
          let gone : contains o q xs ≡ false = rw (antisymmetric q x hit) (Below-apart x xs b) in
          rw (p, hit) gone
      | inr miss ↦ rw (p, miss) refl
    ]

    pub contains-erase :
        (q e : A) (xs : List A)
        → IsSorted xs
        → contains o q (erase o e xs) ≡ (not (same o q e) && contains o q xs)
    unfolding contains erase
    contains-erase q e [] s = ground arith
    contains-erase q e (x ∷ xs) s = elim (Bool-cases (same o e x)) [
      | inl hit ↦ rw hit (contains-tail q e x xs s.0 (antisymmetric e x hit))
      | inr miss ↦ elim (Bool-cases (same o q e)) [
        | inl here ↦
            let other : same o q x ≡ false = rw (antisymmetric q e here) miss in
            ground (arith, contains-erase q e xs s.1, other, miss, here)
        | inr apart ↦ ground (arith, contains-erase q e xs s.1, miss, apart)
      ]
    ]
