-- ===== src/Childs/Laws.antt =====
-- The table of a node's first children is a finite map from radixes to node indices.
use radixox.Common.{
  ℕ, ◌+◌, ◌-◌, ◌≤◌, ◌<◌, ◌≡◌, ◌≢◌, sym, ◌∙◌, true, ◌==◌, if◌then◌else◌, ◌⊎◌, inl, inr, Option-cases,
  [], ◌∷◌, ◌++◌, Option, none, some, ok, panic, arith, length, get_or, set, take, swap_remove,
  length-set, lookup, position, Distinct, lookup-push, Distinct-push, position-lookup, position-lt,
  lookup-swap_remove, Distinct-swap_remove, Returns,
}
use radixox.Childs.Cells.{
  find_loop-lookup, index_of-position, length-iter_loop, iter_loop-push, iter_loop-swap_remove,
  lookup-iter_loop,
}
use radixox.Childs.{Childs, find, is_full, push, index_of, remove_at, remove, iter, default}

-- Two arrays of six cells, at most six in use, the radixes in use distinct.
pub record IsValid (c : Childs) : Type 0 where
  pub idxs_size : length c.idxs ≡ 6
  pub radixs_size : length c.radixs ≡ 6
  pub within : c.len ≤ 6
  pub distinct : Distinct (iter c)

-- The search reads the entries that the iterator lists.
pub find-iter : (c : Childs) (r : ℕ) → find c r ≡ lookup r (iter c)
unfolding find iter
find-iter c r = find_loop-lookup c.len c.radixs c.idxs r

pub default-IsValid : IsValid default
unfolding iter
default-IsValid = omega arith

pub length-iter : {c : Childs} → IsValid c → length (iter c) ≡ c.len
unfolding iter
length-iter {c} v = length-iter_loop c.len c.radixs c.idxs (omega arith) (omega arith)

abbrev pushed : Childs → ℕ → ℕ → Childs
pushed c r i = record { idxs = set c.idxs c.len i; radixs = set c.radixs c.len r; len = c.len + 1 }

push-pushed : (c : Childs) (r i : ℕ) → c.len < 6 → r ≢ 0 → push c r i ≡ ok (pushed c r i)
unfolding push
push-pushed c r i h nz = ground arith

pushed-iter :
    (c : Childs) (r i : ℕ) → IsValid c → c.len < 6 → iter (pushed c r i) ≡ iter c ++ (r, i) ∷ []
unfolding iter
pushed-iter c r i v h = iter_loop-push c.len c.radixs c.idxs r i (omega arith) (omega arith)

-- A table with a free cell takes a new radix other than 0, and stays valid; the search then finds
-- the new child, and under every other radix what it found before.
pub find-push :
    (c : Childs) (r i : ℕ)
    → IsValid c
    → c.len < 6
    → r ≢ 0
    → find c r ≡ none
    → Returns (push c r i) (λ d.
      IsValid d
      × (iter d ≡ iter c ++ (r, i) ∷ [])
      × ((q : ℕ) → find d q ≡ (if r == q then some i else find c q)))
find-push c r i v h nz absent = (
  pushed c r i,
  push-pushed c r i h nz,
  (
    record {
      idxs_size = omega (arith, length-set c.idxs c.len i);
      radixs_size = omega (arith, length-set c.radixs c.len r);
      within = omega arith;
      distinct = rw listed (Distinct-push r i (iter c) free v.distinct);
    },
    listed,
    λ q. rw (find-iter (pushed c r i), listed, find-iter) (lookup-push r q i (iter c) free),
  ),
)
  where
    listed : iter (pushed c r i) ≡ iter c ++ (r, i) ∷ []
    listed = pushed-iter c r i v h

    free : lookup r (iter c) ≡ none
    free = sym (find-iter c r) ∙ absent

-- A full table and the radix 0 make `push` panic.
pub push_panics : (c : Childs) (r i : ℕ) → (is_full c ≡ true) ⊎ (r ≡ 0) → push c r i ≡ panic
unfolding push
push_panics c r i h = ground arith

remove_at-iter :
    (c : Childs) (p : ℕ) → IsValid c → p < c.len → iter (remove_at c p) ≡ swap_remove (iter c) p
unfolding iter
remove_at-iter c p v h = iter_loop-swap_remove c.len p c.radixs c.idxs h (omega arith) (omega arith)

index_of-iter :
    (c : Childs) (r : ℕ) → IsValid c → index_of r (take c.len c.radixs) ≡ position r (iter c)
unfolding iter
index_of-iter c r v = index_of-position c.len c.radixs c.idxs r (omega arith)

value_at :
    (c : Childs) (r p : ℕ)
    → IsValid c
    → position r (iter c) ≡ some p
    → find c r ≡ some (get_or c.idxs p 0)
unfolding iter
value_at c r p v found =
    find-iter c r ∙ lookup-iter_loop c.len c.radixs c.idxs r p (omega arith) (omega arith) found

-- What the removal of a radix returned and left.
pub record Removes (c : Childs) (r : ℕ) (o : Option ℕ × Childs) : Type 0 where
  pub returns : o.0 ≡ find c r
  pub valid : IsValid o.1
  pub reads : (q : ℕ) → find o.1 q ≡ (if r == q then none else find c q)

-- Removing a radix from a valid table returns its child, if it has one, keeps the table valid, and
-- leaves no child under that radix and the same child under every other.
pub find-remove : (c : Childs) (r : ℕ) → IsValid c → Removes c r (remove c r)
unfolding remove
find-remove c r v = elim (Option-cases (position r (iter c))) [
  | inl missing ↦
      rw (place ∙ missing, remove)
        (record {
          returns = sym (absent missing);
          valid = v;
          reads = λ q. ground (arith, absent missing);
        })
  | inr (p, found) ↦
      let small : p < c.len = omega (arith, position-lt r p (iter c) found, length-iter v) in
      let listed = remove_at-iter c p v small in
      rw (place ∙ found, remove)
        (record {
          returns = sym (value_at c r p v found);
          valid = record {
            idxs_size = omega (arith, length-set c.idxs p (get_or c.idxs (c.len - 1) 0));
            radixs_size = omega (arith, length-set c.radixs p (get_or c.radixs (c.len - 1) 0));
            within = omega arith;
            distinct = rw listed (Distinct-swap_remove r p (iter c) v.distinct found);
          };
          reads = λ q.
              rw (find-iter (remove_at c p), listed, find-iter c)
                (lookup-swap_remove r q p (iter c) v.distinct found);
        })
]
  where
    place : index_of r (take c.len c.radixs) ≡ position r (iter c)
    place = index_of-iter c r v

    absent : position r (iter c) ≡ none → find c r ≡ none
    absent h = find-iter c r ∙ position-lookup r (iter c) h
