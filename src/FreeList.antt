-- ===== src/FreeList.antt =====
-- Free lists threaded through the slots of an array, as `OverflowArena` and `GenArena` keep them.
-- `next` gives the free slot behind a free slot.
use radixox.Common.{ℕ, ◌≡◌, ◌≢◌, ◌∙◌, Option, some, List, [], ◌∷◌, no_index, arith}

-- The free list that starts at `head` runs through `free` and ends.
abbrev pub Chain : (ℕ → Option ℕ) → ℕ → List ℕ → Type 0
Chain next head [] = head ≡ no_index
Chain next head (i ∷ free) =
    (head ≡ i) × (i ≢ no_index) × ((n : ℕ) × (next i ≡ some n) × Chain next n free)

abbrev pub NotIn : ℕ → List ℕ → Type 0
NotIn i [] = Unit
NotIn i (j ∷ free) = (i ≢ j) × NotIn i free

abbrev pub Once : List ℕ → Type 0
Once [] = Unit
Once (i ∷ free) = NotIn i free × Once free

-- A chain does not see a change elsewhere.
pub Chain-frame :
    (next next' : ℕ → Option ℕ) (i head : ℕ) (free : List ℕ)
    → ((j : ℕ) → i ≢ j → next' j ≡ next j)
    → NotIn i free
    → Chain next head free
    → Chain next' head free
Chain-frame next next' i head [] same out c = c
Chain-frame next next' i head (j ∷ free) same out (e, ne, (n, at, c)) =
    (e, ne, (n, same j out.0 ∙ at, Chain-frame next next' i n free same out.1 c))

-- A slot that is in use is not in the free list.
pub NotIn-used :
    (next : ℕ → Option ℕ) (i head : ℕ) (free : List ℕ)
    → ((n : ℕ) → next i ≢ some n)
    → Chain next head free
    → NotIn i free
NotIn-used next i head [] used c = tt
NotIn-used next i head (j ∷ free) used (e, ne, (n, at, c)) =
    (λ same. used n (ground (arith, at, same)), NotIn-used next i n free used c)
