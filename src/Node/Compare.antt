-- ===== src/Node/Compare.antt =====
-- How a compressed part of a key relates to the rest of a searched key.
use radixox.Common.{
  ℕ, suc, ◌≡◌, ◌≢◌, Bool-cases, ◌==◌, inl, inr, List, [], ◌∷◌, ◌++◌, arith, length, subst, ==_iff,
}
use radixox.Node.{CompResult, path, final, partial, compare_compression_key}

-- The four ways in which a compressed part `c` and the rest `k` of a key may relate.
pub data Compares : List ℕ → List ℕ → CompResult → Type 0 where
  -- they are equal
  same : (c : List ℕ) → Compares c c final
  -- the key goes on behind the compressed part
  goes_on : (c rest : List ℕ) (r : ℕ) → Compares c (c ++ r ∷ rest) path
  -- the key ends within the compressed part
  ends : (k rest : List ℕ) (r : ℕ) → Compares (k ++ r ∷ rest) k (partial (length k))
  -- they part after a common beginning
  parts :
      (p c k : List ℕ) (x y : ℕ) → x ≢ y → Compares (p ++ x ∷ c) (p ++ y ∷ k) (partial (length p))

shift : CompResult → CompResult
shift path = path
shift final = final
shift (partial n) = partial (suc n)

compare-cons :
    (x : ℕ) (c k : List ℕ)
    → compare_compression_key (x ∷ c) (x ∷ k) ≡ shift (compare_compression_key c k)
unfolding compare_compression_key shift
compare-cons x c k = ground arith

compare_apart :
    (x y : ℕ) (c k : List ℕ)
    → x ≢ y
    → (compare_compression_key [] (y ∷ k) ≡ path)
      × (compare_compression_key (x ∷ c) [] ≡ partial 0)
      × (compare_compression_key (x ∷ c) (y ∷ k) ≡ partial 0)
unfolding compare_compression_key
compare_apart x y c k ne = (ground arith, ground arith, ground arith)

Compares-cons :
    (x : ℕ) {c k : List ℕ} {o : CompResult} → Compares c k o → Compares (x ∷ c) (x ∷ k) (shift o)
unfolding shift
Compares-cons x (same c) = same (x ∷ c)
Compares-cons x (goes_on c rest r) = goes_on (x ∷ c) rest r
Compares-cons x (ends k rest r) = ends (x ∷ k) rest r
Compares-cons x (parts p c k a b ne) = parts (x ∷ p) c k a b ne

-- The comparison tells which of the four ways it is and, unless the key goes on behind the part or
-- equals it, how long the common beginning is.
pub compare-Compares : (c k : List ℕ) → Compares c k (compare_compression_key c k)
compare-Compares [] [] = unfold compare_compression_key in same []
compare-Compares [] (y ∷ k) = rw (compare_apart (suc y) y [] k (omega arith)).0 (goes_on [] k y)
compare-Compares (x ∷ c) [] = rw (compare_apart x (suc x) c [] (omega arith)).1 (ends [] c x)
compare-Compares (x ∷ c) (y ∷ k) = elim (Bool-cases (x == y)) [
  | inl e ↦
      subst (λ z. Compares (x ∷ c) (z ∷ k) (compare_compression_key (x ∷ c) (z ∷ k)))
        ((==_iff x y).0 e) (rw (compare-cons x c k) (Compares-cons x (compare-Compares c k)))
  | inr ne ↦
      let other : x ≢ y = ground (arith, ne) in
      rw (compare_apart x y c k other).2 (parts [] c k x y other)
]
