-- ===== src/Overflow/Laws.antt =====
-- An overflow table, over its two representations, is a finite map from radixes to node indices.
use radixox.Common.{
  ℕ, ◌≤◌, ◌<◌, ◌≡◌, ◌≢◌, refl, sym, ◌∙◌, ◌==◌, if◌then◌else◌, ◌⊎◌, inl, List, [], Option, none,
  some, arith, length, lookup, Distinct, or_lookup, lookup-append, Apart,
}
use radixox.Childs.{iter_loop}
use radixox.Childs.Cells.{find_loop-lookup}
use radixox.Overflow.{
  Overflow, Huge, default, huge_overflow_capacity, find, big_find, iter, big_iter,
}

abbrev pub light : Overflow → List (ℕ × ℕ)
light o = iter_loop o.len o.radixs o.idxs

module _ (huge : Huge) where
  open huge use {Vec, Slab}

  -- A huge table that is referred to is in the slab, and not empty.
  abbrev pub IsLive : Slab → Option ℕ → Type 0
  IsLive s none = Unit
  IsLive s (some h) = (v : Vec) × (huge.slab.get s h ≡ some v) × (huge.entries v ≢ [])

  pub record IsValid (s : Slab) (o : Overflow) : Type 0 where
    pub idxs_size : length o.idxs ≡ 10
    pub radixs_size : length o.radixs ≡ 10
    pub within : o.len ≤ 10
    pub live : IsLive s o.big_overflow_idx
    pub light_distinct : Distinct (light o)
    pub big_distinct : Distinct (big_iter huge s o.big_overflow_idx)
    pub apart : Apart (light o) (big_iter huge s o.big_overflow_idx)

  big_find-lookup :
      (s : Slab) (b : Option ℕ) (r : ℕ) → big_find huge s b r ≡ lookup r (big_iter huge s b)
  unfolding big_find big_iter
  big_find-lookup s none r = refl
  big_find-lookup s (some h) r = ground arith

  pub find-or :
      (s : Slab) (o : Overflow) (r : ℕ)
      → find huge s o r
        ≡ or_lookup (lookup r (light o)) (lookup r (big_iter huge s o.big_overflow_idx))
  unfolding find
  find-or s o r =
      ground
        (arith, find_loop-lookup o.len o.radixs o.idxs r, big_find-lookup s o.big_overflow_idx r)

  -- The search reads the entries that the iterator lists.
  pub find-iter : (s : Slab) (o : Overflow) (r : ℕ) → find huge s o r ≡ lookup r (iter huge s o)
  unfolding iter
  find-iter s o r =
      find-or s o r ∙ sym (lookup-append r (light o) (big_iter huge s o.big_overflow_idx))

  pub default-IsValid : (s : Slab) → IsValid s default
  unfolding big_iter
  default-IsValid s = record {
    idxs_size = refl;
    radixs_size = refl;
    within = omega arith;
    live = tt;
    light_distinct = tt;
    big_distinct = tt;
    apart = λ q. inl refl;
  }

  pub find-default : (s : Slab) (q : ℕ) → find huge s default q ≡ none
  unfolding find big_find
  find-default s q = refl

  big_iter-frame :
      (s s' : Slab) (b : Option ℕ)
      → ((h : ℕ) → b ≡ some h → huge.slab.get s' h ≡ huge.slab.get s h)
      → big_iter huge s' b ≡ big_iter huge s b
  unfolding big_iter
  big_iter-frame s s' none same = refl
  big_iter-frame s s' (some h) same = ground (arith, same h refl)

  IsLive-frame :
      (s s' : Slab) (b : Option ℕ)
      → ((h : ℕ) → b ≡ some h → huge.slab.get s' h ≡ huge.slab.get s h)
      → IsLive s b
      → IsLive s' b
  IsLive-frame s s' none same l = tt
  IsLive-frame s s' (some h) same (v, at, full) = (v, same h refl ∙ at, full)

  -- A table does not see a change of other huge tables.
  pub IsValid-frame :
      (s s' : Slab) (o : Overflow)
      → ((h : ℕ) → o.big_overflow_idx ≡ some h → huge.slab.get s' h ≡ huge.slab.get s h)
      → IsValid s o
      → IsValid s' o × ((q : ℕ) → find huge s' o q ≡ find huge s o q)
  IsValid-frame s s' o same v =
      let e = big_iter-frame s s' o.big_overflow_idx same in
      (
        record {
          idxs_size = v.idxs_size;
          radixs_size = v.radixs_size;
          within = v.within;
          live = IsLive-frame s s' o.big_overflow_idx same v.live;
          light_distinct = v.light_distinct;
          big_distinct = rw e v.big_distinct;
          apart = rw e v.apart;
        },
        λ q. ground (arith, find-or s o q, find-or s' o q, e),
      )

  -- There is a free cell in the arrays, or room for the child in the huge part.
  abbrev pub HasRoom : Slab → Overflow → Type 0
  HasRoom s o =
      (o.len < 10)
      ⊎ ((length (big_iter huge s o.big_overflow_idx) < huge_overflow_capacity)
          × (0 < huge.slab.room s))

  -- A write of `w` under the radix `r`; other tables' huge parts are left alone.
  pub record Writes (s : Slab) (o : Overflow) (r : ℕ) (w : Option ℕ) (t : Slab × Overflow)
      : Type 0 where
    pub valid : IsValid t.0 t.1
    pub reads : (q : ℕ) → find huge t.0 t.1 q ≡ (if r == q then w else find huge s o q)
    pub frame :
        (h : ℕ)
        → o.big_overflow_idx ≢ some h
        → huge.slab.get s h ≢ none
        → huge.slab.get t.0 h ≡ huge.slab.get s h
    pub fresh :
        (h : ℕ)
        → t.1.big_overflow_idx ≡ some h
        → (o.big_overflow_idx ≡ some h) ⊎ (huge.slab.get s h ≡ none)
