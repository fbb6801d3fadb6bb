-- ===== src/BTree/Bytes.antt =====
-- The order of byte strings: by the first byte that differs, and a prefix first.
use radixox.Common.{ℕ, ◌≡◌, refl, Bool, true, false, ◌||◌, ◌&&◌, ◌==◌, ltb, List, [], ◌∷◌, arith}
use radixox.BTree.{Order, same}

abbrev pub before_bytes : List ℕ → List ℕ → Bool
before_bytes [] [] = false
before_bytes [] (c ∷ cs) = true
before_bytes (b ∷ bs) [] = false
before_bytes (b ∷ bs) (c ∷ cs) = ltb b c || (b == c && before_bytes bs cs)

before_bytes_irrefl : (a : List ℕ) → before_bytes a a ≡ false
before_bytes_irrefl [] = refl
before_bytes_irrefl (b ∷ bs) = ground (arith, before_bytes_irrefl bs)

before_bytes_trans :
    (a b c : List ℕ) → before_bytes a b ≡ true → before_bytes b c ≡ true → before_bytes a c ≡ true
before_bytes_trans [] [] c h k = k
before_bytes_trans (x ∷ xs) [] c h k = absurd (ground (arith, h))
before_bytes_trans a (y ∷ ys) [] h k = absurd (ground (arith, k))
before_bytes_trans [] (y ∷ ys) (z ∷ zs) h k = refl
before_bytes_trans (x ∷ xs) (y ∷ ys) (z ∷ zs) h k = ground (arith, before_bytes_trans xs ys zs)

unfoldable pub bytes_order : Order (List ℕ)
unfolding before_bytes_irrefl before_bytes_trans
bytes_order = record {
  before = before_bytes;
  irreflexive = before_bytes_irrefl;
  transitive = before_bytes_trans;
}

-- Neither of two byte strings stands before the other only if they are one.
pub same-eq : (a b : List ℕ) → same bytes_order a b ≡ true → a ≡ b
unfolding bytes_order
same-eq [] [] h = refl
same-eq [] (c ∷ cs) h = absurd (ground arith)
same-eq (b ∷ bs) [] h = absurd (ground arith)
same-eq (b ∷ bs) (c ∷ cs) h =
    let head : b ≡ c = ground arith in
    let tail = same-eq bs cs (ground arith) in rw (head, tail) refl
