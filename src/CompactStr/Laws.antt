-- ===== src/CompactStr/Laws.antt =====
-- The string holds the bytes that were put in, in either form.
use radixox.Common.{
  ℕ, suc, ◌+◌, ◌^◌, ◌≤◌, ◌<◌, ◌≡◌, refl, ap, Bool-cases, leb, leb→le, ◌/◌, ◌%◌, inl, inr, List, [],
  ◌∷◌, ◌++◌, arith, length, length-append, take, drop, get_or, replicate, set, take-length,
  take-append_self, length-drop, append_assoc,
}
use radixox.CompactStr.{CompactStr, new, from_slice, deref, append_and_replace, copy_at, length_tag}

-- In the short form: the eight bytes, the first of which tells the length.
pub deref-new : deref new ≡ []
unfolding deref new
deref-new = refl

half-length_tag : (n : ℕ) → n ≤ 7 → length_tag n / 2 ≡ n
half-length_tag n h = omega arith

-- A string of fewer than 2 ^ 32 bytes is read back whole.
pub deref-from_slice : (bytes : List ℕ) → length bytes < 2 ^ 32 → deref (from_slice bytes) ≡ bytes
unfolding from_slice deref
deref-from_slice bytes h = elim (Bool-cases (leb (length bytes) 7)) [
  | inl short ↦
      rw (short, half-length_tag (length bytes) (leb→le _ 7 short))
        (take-append_self bytes
          (drop (1 + length bytes) (length_tag (length bytes) ∷ replicate 7 0)))
  | inr long ↦
      let fits : length bytes % 2 ^ 32 ≡ length bytes = omega arith in
      rw (long, fits) (take-length bytes)
]

set-append :
    (old rest : List ℕ) (r : ℕ)
    → 0 < length rest
    → set (old ++ rest) (length old) r ≡ old ++ r ∷ drop 1 rest
set-append [] [] r h = elim h [ ]
set-append [] (y ∷ ys) r h = refl
set-append (x ∷ old) rest r h = ap (◌∷◌ x) (set-append old rest r h)

take-append_one :
    (old rest : List ℕ) (r : ℕ) → take (suc (length old)) (old ++ r ∷ rest) ≡ old ++ r ∷ []
take-append_one [] rest r = refl
take-append_one (x ∷ old) rest r = ap (◌∷◌ x) (take-append_one old rest r)

-- The buffer after both copies and the radix between them.
joined :
    (tag radix : ℕ) (old suffix rest : List ℕ)
    → 0 < length rest
    → let bytes =
        copy_at (2 + length old) suffix (set (tag ∷ (old ++ rest)) (1 + length old) radix) in
      (junk : List ℕ) × (get_or bytes 0 0 ≡ tag) × (drop 1 bytes ≡ (old ++ radix ∷ suffix) ++ junk)
joined tag radix old suffix rest h = (junk, rw front, rw front (simp append_assoc))
  where
    n : ℕ
    n = length old

    junk : List ℕ
    junk = drop (2 + n + length suffix) (set (tag ∷ (old ++ rest)) (1 + n) radix)

    front : take (2 + n) (set (tag ∷ (old ++ rest)) (1 + n) radix) ≡ tag ∷ (old ++ radix ∷ [])
    front =
        let one : 1 + n ≡ suc n = omega arith in
        let two : 2 + n ≡ suc (suc n) = omega arith in
        rw (one, two, set-append old rest radix h)
          (ap (◌∷◌ tag) (take-append_one old (drop 1 rest) radix))

-- Recompression joins the two parts with the radix between them, if that makes fewer than 2 ^ 32
-- bytes.
pub deref-append_and_replace :
    (s : CompactStr) (radix : ℕ) (suffix : List ℕ)
    → length (deref s) + 1 + length suffix < 2 ^ 32
    → deref (append_and_replace s radix suffix) ≡ deref s ++ radix ∷ suffix
unfolding append_and_replace
deref-append_and_replace s radix suffix h =
    elim (Bool-cases (leb (length old + 1 + length suffix) 7)) [
      | inl short ↦
          let n : length old + 1 + length suffix ≤ 7 = leb→le _ 7 short in
          let tag = length_tag (length old + 1 + length suffix) in
          let rest = drop (1 + length old) (tag ∷ replicate 7 0) in
          let room : 0 < length rest =
            omega (arith, length-drop (1 + length old) (tag ∷ replicate 7 0)) in
          let (junk, head, tail) = joined tag radix old suffix rest room in
          let size : tag / 2 ≡ length (old ++ radix ∷ suffix) =
            omega (arith, length-append old (radix ∷ suffix)) in
          rw (short, head, tail, size) (take-append_self (old ++ radix ∷ suffix) junk)
      | inr long ↦
          let fits : (length old + 1 + length suffix) % 2 ^ 32 ≡ length (old ++ radix ∷ suffix) =
            omega (arith, length-append old (radix ∷ suffix)) in
          rw (long, fits) (take-length (old ++ radix ∷ suffix))
    ]
  where
    old : List ℕ
    old = deref s
