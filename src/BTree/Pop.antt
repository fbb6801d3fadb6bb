-- ===== src/BTree/Pop.antt =====
-- Popping the last elements one by one.
use radixox.Common.{
  ℕ, zero, suc, ◌+◌, min, ◌≡◌, refl, sym, ap, ◌∙◌, List, [], ◌∷◌, ◌++◌, append_assoc, Option, none,
  some, length, arith,
}
use radixox.BTree.{pop_last, pop_loop}

module _ {ℓ} {A : Type ℓ} where
  -- The last element, and those in front of it.
  pop_last-some :
      (x : A) (xs : List A)
      → (v : A) × (rest : List A) × (pop_last (x ∷ xs) ≡ (some v, rest))
        × (rest ++ v ∷ [] ≡ x ∷ xs)
        × (length rest ≡ length xs)
  unfolding pop_last
  pop_last-some x [] = (x, [], refl, refl, refl)
  pop_last-some x (y ∷ ys) =
      let (v, rest, popped, joined, len) = pop_last-some y ys in
      (v, x ∷ rest, rw popped refl, ap (◌∷◌ x) joined, ap suc len)

  pop_loop_step :
      (n : ℕ) (res : List A) (x : A) (xs : List A) (v : A) (rest : List A)
      → pop_last (x ∷ xs) ≡ (some v, rest)
      → pop_loop (suc n) res (x ∷ xs) ≡ pop_loop n (v ∷ res) rest
  unfolding pop_loop
  pop_loop_step n res x xs v rest popped =
      ap
        (λ (p : Option A × List A). elim p.0 [
          | none ↦ (res, p.1)
          | some w ↦ pop_loop n (w ∷ res) p.1
        ])
        popped

  -- Each round moves the last element in front of those popped before it.
  pub pop_loop-splits :
      (n : ℕ) (res xs : List A)
      → ((pop_loop n res xs).1 ++ (pop_loop n res xs).0 ≡ xs ++ res)
        × (length (pop_loop n res xs).0 ≡ length res + min n (length xs))
  unfolding pop_loop
  pop_loop-splits zero res xs = (refl, omega arith)
  pop_loop-splits (suc n) res [] = (refl, omega arith)
  pop_loop-splits (suc n) res (x ∷ xs) =
      let (v, rest, popped, joined, len) = pop_last-some x xs in
      let step = pop_loop_step n res x xs v rest popped in
      let (whole, many) = pop_loop-splits n (v ∷ res) rest in
      (
        ap (λ (p : List A × List A). p.1 ++ p.0) step
            ∙ whole
            ∙ sym (append_assoc rest (v ∷ []) res)
            ∙ ap (λ ys. ys ++ res) joined,
        ap (λ (p : List A × List A). length p.0) step ∙ omega (arith, many, len),
      )
