-- ===== src/BTree.antt =====
-- `BTreeSet` of the standard library, and sorted vectors, as oxidart/src/scommand.rs,
-- oxidart/src/zcommand.rs and oxidart/src/zset_inner.rs use them: a list in ascending order.
pub mod Laws
pub mod Bytes
pub mod Pop
use radixox.Common.{
  ℕ, zero, suc, ◌≡◌, Bool, true, false, not, ◌&&◌, if◌then◌else◌, List, [], ◌∷◌, Option, none, some,
}

-- The bound `Ord`: which of two values stands before the other.
pub record Order {ℓ} (A : Type ℓ) : Type ℓ where
  pub before : A → A → Bool
  pub irreflexive : (a : A) → before a a ≡ false
  pub transitive : (a b c : A) → before a b ≡ true → before b c ≡ true → before a c ≡ true

module _ {ℓ} {A : Type ℓ} (o : Order A) where
  -- `cmp` gives `Equal`.
  abbrev pub same : A → A → Bool
  same a b = not (o.before a b) && not (o.before b a)

  unfoldable pub contains : A → List A → Bool
  contains e [] = false
  contains e (x ∷ xs) = if same e x then true else contains e xs

  -- The number of elements before the first one that does not stand before `e`.
  abbrev pub partition_point : A → List A → ℕ
  partition_point e [] = zero
  partition_point e (x ∷ xs) = if o.before x e then suc (partition_point e xs) else zero

  -- `Vec::insert`
  abbrev pub insert_at : ℕ → A → List A → List A
  insert_at zero e xs = e ∷ xs
  insert_at (suc n) e [] = e ∷ []
  insert_at (suc n) e (x ∷ xs) = x ∷ insert_at n e xs

  unfoldable pub place : A → List A → List A
  place e xs = insert_at (partition_point e xs) e xs

  -- `BTreeSet::insert`: an equal element stays.
  unfoldable pub insert : A → List A → Bool × List A
  insert e xs = if contains e xs then (false, xs) else (true, place e xs)

  unfoldable pub erase : A → List A → List A
  erase e [] = []
  erase e (x ∷ xs) = if same e x then xs else x ∷ erase e xs

  -- `BTreeSet::remove`
  unfoldable pub remove : A → List A → Bool × List A
  remove e xs = (contains e xs, erase e xs)

module _ {ℓ} {A : Type ℓ} where
  -- `BTreeSet::pop_last`
  unfoldable pub pop_last : List A → Option A × List A
  pop_last [] = (none, [])
  pop_last (x ∷ []) = (some x, [])
  pop_last (x ∷ y ∷ ys) = let (last, rest) = pop_last (y ∷ ys) in (last, x ∷ rest)

  -- The loop `for _ in 0..count`, which ends early when the set is empty, with what it has popped.
  unfoldable pub pop_loop : ℕ → List A → List A → List A × List A
  pop_loop zero res xs = (res, xs)
  pop_loop (suc n) res [] = (res, [])
  pop_loop (suc n) res (x ∷ xs) =
      let (last, rest) = pop_last (x ∷ xs) in
      elim last [ none ↦ (res, rest) | some v ↦ pop_loop n (v ∷ res) rest ]
