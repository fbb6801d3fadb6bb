-- ===== src/Childs/Cells.antt =====
-- Two arrays read side by side: what the tables `Childs` and `Overflow` share.
use native.Mathlib.Numerals.{add-one}
use radixox.Common.{
  ℕ, zero, suc, ◌+◌, ◌-◌, ◌≤◌, ◌<◌, ◌≡◌, refl, ap, ◌∙◌, List, [], ◌∷◌, ◌++◌, some, arith, length,
  get_or, get_or-take, set, take, length-take, swap_remove, take-set_next, take-set-swap_remove,
  lookup, position, position-lt, position-get,
}
use radixox.Childs.{find_loop, index_of, iter_loop}

-- Both arrays side by side.
abbrev cells : List ℕ → List ℕ → List (ℕ × ℕ)
cells (a ∷ radixs) (i ∷ idxs) = (a, i) ∷ cells radixs idxs
cells _ _ = []

iter_loop-take :
    (n : ℕ) (radixs idxs : List ℕ) → iter_loop n radixs idxs ≡ take n (cells radixs idxs)
iter_loop-take zero radixs idxs = refl
iter_loop-take (suc n) (a ∷ radixs) (i ∷ idxs) = ap (◌∷◌ (a, i)) (iter_loop-take n radixs idxs)
iter_loop-take (suc n) [] idxs = refl
iter_loop-take (suc n) (a ∷ radixs) [] = refl

cells-set :
    (radixs idxs : List ℕ) (p a i : ℕ)
    → cells (set radixs p a) (set idxs p i) ≡ set (cells radixs idxs) p (a, i)
cells-set (x ∷ radixs) (j ∷ idxs) zero a i = refl
cells-set (x ∷ radixs) (j ∷ idxs) (suc p) a i = ap (◌∷◌ (x, j)) (cells-set radixs idxs p a i)
cells-set [] idxs p a i = refl
cells-set (x ∷ radixs) [] zero a i = refl
cells-set (x ∷ radixs) [] (suc p) a i = refl

length-cells :
    (radixs idxs : List ℕ) → length radixs ≡ length idxs → length (cells radixs idxs) ≡ length idxs
length-cells (x ∷ radixs) (j ∷ idxs) h = ap suc (length-cells radixs idxs (omega arith))
length-cells [] [] h = refl
length-cells [] (j ∷ idxs) h = absurd (omega arith)
length-cells (x ∷ radixs) [] h = absurd (omega arith)

get_or-cells :
    (radixs idxs : List ℕ) (p : ℕ)
    → p < length radixs
    → p < length idxs
    → get_or (cells radixs idxs) p (0, 0) ≡ (get_or radixs p 0, get_or idxs p 0)
get_or-cells (x ∷ radixs) (j ∷ idxs) zero h k = refl
get_or-cells (x ∷ radixs) (j ∷ idxs) (suc p) h k =
    get_or-cells radixs idxs p (omega arith) (omega arith)
get_or-cells [] idxs p h k = elim h [ ]
get_or-cells (x ∷ radixs) [] p h k = elim k [ ]

pub find_loop-lookup :
    (n : ℕ) (radixs idxs : List ℕ) (r : ℕ)
    → find_loop n radixs idxs r ≡ lookup r (iter_loop n radixs idxs)
find_loop-lookup zero radixs idxs r = refl
find_loop-lookup (suc n) (a ∷ radixs) (i ∷ idxs) r =
    ground (arith, find_loop-lookup n radixs idxs r)
find_loop-lookup (suc n) [] idxs r = refl
find_loop-lookup (suc n) (a ∷ radixs) [] r = refl

pub index_of-position :
    (n : ℕ) (radixs idxs : List ℕ) (r : ℕ)
    → length radixs ≡ length idxs
    → index_of r (take n radixs) ≡ position r (iter_loop n radixs idxs)
index_of-position zero radixs idxs r h = refl
index_of-position (suc n) (a ∷ radixs) (i ∷ idxs) r h =
    ground (arith, index_of-position n radixs idxs r (omega arith))
index_of-position (suc n) [] idxs r h = refl
index_of-position (suc n) (a ∷ radixs) [] r h = absurd (omega arith)

pub length-iter_loop :
    (n : ℕ) (radixs idxs : List ℕ)
    → n ≤ length idxs
    → length radixs ≡ length idxs
    → length (iter_loop n radixs idxs) ≡ n
length-iter_loop n radixs idxs h e =
    rw (iter_loop-take n radixs idxs)
      (omega (arith, length-take n (cells radixs idxs), length-cells radixs idxs e))

-- A write behind the cells in use appends an entry.
pub iter_loop-push :
    (n : ℕ) (radixs idxs : List ℕ) (r i : ℕ)
    → n < length idxs
    → length radixs ≡ length idxs
    → iter_loop (n + 1) (set radixs n r) (set idxs n i) ≡ iter_loop n radixs idxs ++ (r, i) ∷ []
iter_loop-push n radixs idxs r i h e =
    rw (iter_loop-take (n + 1) (set radixs n r), iter_loop-take n radixs idxs, cells-set, add-one)
      (take-set_next n (cells radixs idxs) (r, i) (omega (arith, length-cells radixs idxs e)))

-- The last cell in use takes the place of the removed one.
pub iter_loop-swap_remove :
    (n p : ℕ) (radixs idxs : List ℕ)
    → p < n
    → n ≤ length idxs
    → length radixs ≡ length idxs
    → iter_loop
        (n - 1)
        (set radixs p (get_or radixs (n - 1) 0))
        (set idxs p (get_or idxs (n - 1) 0))
      ≡ swap_remove (iter_loop n radixs idxs) p
iter_loop-swap_remove n p radixs idxs small h e =
    let last = n - 1 in
    let bound = length-cells radixs idxs e in
    let g = get_or-cells radixs idxs last (omega arith) (omega arith) in
    let back : suc last ≡ n = omega arith in
    rw
      (
        iter_loop-take last (set radixs p (get_or radixs last 0)),
        iter_loop-take n radixs idxs,
        cells-set,
        ← g,
      )
      (take-set-swap_remove last p (cells radixs idxs) (0, 0) (omega arith) (omega arith)
        ∙ ap (λ m. swap_remove (take m (cells radixs idxs)) p) back)

pub lookup-iter_loop :
    (n : ℕ) (radixs idxs : List ℕ) (r p : ℕ)
    → n ≤ length idxs
    → length radixs ≡ length idxs
    → position r (iter_loop n radixs idxs) ≡ some p
    → lookup r (iter_loop n radixs idxs) ≡ some (get_or idxs p 0)
lookup-iter_loop n radixs idxs r p h e found =
    let small : p < n = omega (
      arith,
      position-lt r p (iter_loop n radixs idxs) found,
      length-iter_loop n radixs idxs h e,
    ) in
    position-get r p (iter_loop n radixs idxs) (0, 0) found
    ∙ ap (λ (es : List (ℕ × ℕ)). some (get_or {A = ℕ × ℕ} es p (0, 0)).1)
        (iter_loop-take n radixs idxs)
    ∙ ap (λ (x : ℕ × ℕ). some x.1)
        (get_or-take n p (cells radixs idxs) (0, 0) small
          ∙ get_or-cells radixs idxs p (omega arith) (omega arith))
