-- ===== src/Overflow/Remove.antt =====
-- `Overflow::remove`, over both representations.
use radixox.Common.{
  ℕ, ◌-◌, ◌<◌, ◌≡◌, ◌≢◌, refl, sym, ap, ◌∙◌, true, ◌==◌, if◌then◌else◌, ◌⊎◌, inl, inr, Option-cases,
  Bool-cases, subst, List, [], ◌∷◌, Option, none, some, arith, get_or, take, swap_remove,
  length-set, lookup, position, position-lookup, position-lt, position-get, lookup-swap_remove,
  Distinct-swap_remove,
}
use radixox.Childs.{index_of}
use radixox.Childs.Cells.{
  index_of-position, length-iter_loop, iter_loop-swap_remove, lookup-iter_loop,
}
use radixox.Overflow.{
  Overflow, Huge, find, remove, light_remove, big_remove, big_store, huge_remove, big_iter,
  list_is_empty,
}
use radixox.Overflow.Laws.{light, IsLive, IsValid, find-or, Writes}

list_is_empty-nil : (es : List (ℕ × ℕ)) → list_is_empty es ≡ true → es ≡ []
list_is_empty-nil [] h = refl
list_is_empty-nil (e ∷ es) h = cc

same :
    (o : Overflow) (h : ℕ)
    → o.big_overflow_idx ≡ some h
    → record o { big_overflow_idx = some h } ≡ o
same o h e = ground (arith, e)

module _ (huge : Huge) where
  open huge use {Vec, Slab}

  -- `remove` returns what the search finds, and a later search finds it no more.
  pub record Removes (s : Slab) (o : Overflow) (r : ℕ) (t : Option ℕ × Slab × Overflow)
      : Type 0 where
    pub returns : t.0 ≡ find huge s o r
    pub writes : Writes huge s o r none (t.1, t.2)

  module _ (s : Slab) (o : Overflow) (v : IsValid huge s o) (r : ℕ) where
    absent-Removes : find huge s o r ≡ none → Removes s o r (none, s, o)
    absent-Removes h = record {
      returns = sym h;
      writes = record {
        valid = v;
        reads = λ q. ground (arith, h);
        frame = λ k _ _. refl;
        fresh = λ k e. inl e;
      };
    }

    light_remove-Removes :
        (p : ℕ)
        → position r (light o) ≡ some p
        → Removes s o r (some (get_or o.idxs p 0), s, light_remove o p)
    light_remove-Removes p found = record {
      returns = sym (find-or huge s o r ∙ rw at refl);
      writes = record {
        valid = record {
          idxs_size = omega (arith, length-set o.idxs p (get_or o.idxs (o.len - 1) 0));
          radixs_size = omega (arith, length-set o.radixs p (get_or o.radixs (o.len - 1) 0));
          within = omega arith;
          live = v.live;
          light_distinct = rw shrunk (Distinct-swap_remove r p (light o) v.light_distinct found);
          big_distinct = v.big_distinct;
          apart = λ q. rw shrunk (
              ground (arith, v.apart q, lookup-swap_remove r q p (light o) v.light_distinct found));
        };
        reads = λ q. ground (
          arith,
          at,
          find-or huge s o q,
          find-or huge s (light_remove o p) q,
          shrunk,
          v.apart r,
          lookup-swap_remove r q p (light o) v.light_distinct found,
        );
        frame = λ h _ _. refl;
        fresh = λ h e. inl e;
      };
    }
      where
        small : p < o.len
        small = omega (
          arith,
          position-lt r p (light o) found,
          length-iter_loop o.len o.radixs o.idxs (omega arith) (omega arith),
        )

        at : lookup r (light o) ≡ some (get_or o.idxs p 0)
        at = lookup-iter_loop o.len o.radixs o.idxs r p (omega arith) (omega arith) found

        shrunk : light (light_remove o p) ≡ swap_remove (light o) p
        shrunk = iter_loop-swap_remove o.len p o.radixs o.idxs small (omega arith) (omega arith)

    -- The arrays stay, and the entry at `p` leaves the huge part.
    big-Removes :
        (p : ℕ) (s' : Slab) (b : Option ℕ)
        → lookup r (light o) ≡ none
        → position r (big_iter huge s o.big_overflow_idx) ≡ some p
        → big_iter huge s' b ≡ swap_remove (big_iter huge s o.big_overflow_idx) p
        → IsLive huge s' b
        → ((h : ℕ)
            → o.big_overflow_idx ≢ some h
            → huge.slab.get s h ≢ none
            → huge.slab.get s' h ≡ huge.slab.get s h)
        → ((h : ℕ) → b ≡ some h → (o.big_overflow_idx ≡ some h) ⊎ (huge.slab.get s h ≡ none))
        → Removes s o r (
          some (get_or (big_iter huge s o.big_overflow_idx) p (0, 0)).1,
          s',
          record o { big_overflow_idx = b },
        )
    big-Removes p s' b out found shrunk live frame fresh = record {
      returns = ground (arith, find-or huge s o r, out, position-get r p big (0, 0) found);
      writes = record {
        valid = record {
          idxs_size = v.idxs_size;
          radixs_size = v.radixs_size;
          within = v.within;
          live = live;
          light_distinct = v.light_distinct;
          big_distinct = rw shrunk (Distinct-swap_remove r p big v.big_distinct found);
          apart = λ q. rw shrunk (ground (arith, v.apart q, gone q));
        };
        reads = λ q. ground (
          arith,
          find-or huge s o q,
          find-or huge s' (record o { big_overflow_idx = b }) q,
          shrunk,
          out,
          gone q,
        );
        frame = frame;
        fresh = fresh;
      };
    }
      where
        big : List (ℕ × ℕ)
        big = big_iter huge s o.big_overflow_idx

        gone : (q : ℕ) → lookup q (swap_remove big p) ≡ (if r == q then none else lookup q big)
        gone q = lookup-swap_remove r q p big v.big_distinct found

    -- The huge table without its entry at `p` is stored, or given back if it is empty.
    big_store-Removes :
        (h p : ℕ) (old : Vec)
        → o.big_overflow_idx ≡ some h
        → huge.slab.get s h ≡ some old
        → lookup r (light o) ≡ none
        → position r (huge.entries old) ≡ some p
        → Removes s o r
            (big_store huge s o h ((get_or (huge.entries old) p (0, 0)).1, huge.swap_remove old p))
    unfolding big_iter
    big_store-Removes h p old e at out found =
        elim (Bool-cases (list_is_empty (huge.entries left))) [
          | inl empty ↦
              let none_left = list_is_empty-nil (huge.entries left) empty in
              rw (empty, held)
                (big-Removes p (huge.slab.remove stored h) none out place
                  (sym (ap (λ es. swap_remove es p) (sym held) ∙ sym shrunk ∙ none_left)) tt
                  (λ k other _. ground (arith, huge.slab.get-remove stored h k, here k))
                  (λ k same. cc))
          | inr full ↦
              rw (full, held)
                (subst (λ x. Removes s o r (some (get_or big p (0, 0)).1, stored, x)) (same o h e)
                  (big-Removes p stored (some h) out place (ground (arith, here h, shrunk, held))
                    (left, ground (arith, here h), λ n. cc (ap list_is_empty n, full))
                    (λ k other _. ground (arith, here k)) (λ k same. inl (e ∙ same))))
        ]
      where
        left : Vec
        left = huge.swap_remove old p

        stored : Slab
        stored = huge.slab.set s h left

        big : List (ℕ × ℕ)
        big = big_iter huge s o.big_overflow_idx

        held : huge.entries old ≡ big
        held = ground (arith, e, at)

        place : position r big ≡ some p
        place = rw (← held) found

        here : (k : ℕ) → huge.slab.get stored k ≡ (if h == k then some left else huge.slab.get s k)
        here k = huge.slab.get-set s h left old k at

        shrunk : huge.entries left ≡ swap_remove (huge.entries old) p
        shrunk = huge.entries-swap_remove old p (position-lt r p (huge.entries old) found)

    big_remove-Removes :
        lookup r (light o) ≡ none
        → (b : Option ℕ) → o.big_overflow_idx ≡ b
        → Removes s o r (big_remove huge s o b r)
    unfolding big_remove huge_remove big_iter
    big_remove-Removes out none e = absent-Removes (ground (arith, find-or huge s o r, out, e))
    big_remove-Removes out (some h) e =
        let (old, at, full) = subst (IsLive huge s) e v.live in
        elim (Option-cases (position r (huge.entries old))) [
          | inl missing ↦
              let nothing = position-lookup r (huge.entries old) missing in
              rw (at, missing, big_remove, huge_remove)
                (absent-Removes (ground (arith, find-or huge s o r, out, e, at, nothing)))
          | inr (p, found) ↦
              rw (at, found, big_remove, huge_remove) (big_store-Removes h p old e at out found)
        ]

    -- From a valid table `remove` returns the child that the search finds, if any; the table stays
    -- valid, with no child under the radix and the same child under every other, and the huge parts of
    -- other tables are left alone.
    pub remove-Removes : Removes s o r (remove huge s o r)
    unfolding remove
    remove-Removes = elim (Option-cases (position r (light o))) [
      | inl missing ↦
          rw (place ∙ missing, remove)
            (big_remove-Removes (position-lookup r (light o) missing) o.big_overflow_idx refl)
      | inr (p, found) ↦ rw (place ∙ found, remove) (light_remove-Removes p found)
    ]
      where
        place : index_of r (take o.len o.radixs) ≡ position r (light o)
        place = index_of-position o.len o.radixs o.idxs r (omega arith)
