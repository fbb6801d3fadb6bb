-- ===== src/Overflow/Push.antt =====
-- `Overflow::push`, over both representations.
use radixox.Common.{
  ℕ, ◌<◌, ◌≡◌, ◌≢◌, refl, sym, ap, ◌∙◌, ltb, ◌⊎◌, inl, inr, Bool-cases, subst, [], ◌∷◌, ◌++◌,
  Option, none, some, arith, length, length-append, length-set, lookup, lookup-push, Distinct-push,
  Returns,
}
use radixox.Childs.Cells.{iter_loop-push}
use radixox.Overflow.{
  Overflow, Huge, huge_overflow_capacity, find, push, big_push, light_push, huge_new, big_iter,
}
use radixox.Overflow.Laws.{light, IsLive, IsValid, find-or, HasRoom, Writes}

module _ (huge : Huge) where
  open huge use {Vec, Slab}

  module _ (s : Slab) (o : Overflow) (v : IsValid huge s o) (r i : ℕ)
      (absent : find huge s o r ≡ none) where
    light_absent : lookup r (light o) ≡ none
    light_absent = ground (arith, find-or huge s o r)

    big_absent : lookup r (big_iter huge s o.big_overflow_idx) ≡ none
    big_absent = ground (arith, find-or huge s o r)

    light_push-Writes : o.len < 10 → Writes huge s o r (some i) (s, light_push o r i)
    light_push-Writes h = record {
      valid = record {
        idxs_size = omega (arith, length-set o.idxs o.len i);
        radixs_size = omega (arith, length-set o.radixs o.len r);
        within = omega arith;
        live = v.live;
        light_distinct = rw grown (Distinct-push r i (light o) light_absent v.light_distinct);
        big_distinct = v.big_distinct;
        apart = λ q.
            rw grown
              (ground (arith, v.apart q, big_absent, lookup-push r q i (light o) light_absent));
      };
      reads = λ q. ground (
        arith,
        find-or huge s o q,
        find-or huge s (light_push o r i) q,
        grown,
        lookup-push r q i (light o) light_absent,
      );
      frame = λ h _ _. refl;
      fresh = λ h e. inl e;
    }
      where
        grown : light (light_push o r i) ≡ light o ++ (r, i) ∷ []
        grown = iter_loop-push o.len o.radixs o.idxs r i (omega arith) (omega arith)

    -- The arrays stay, and the huge part becomes `big ++ (r, i) ∷ []`.
    big-Writes :
        (s' : Slab) (b : Option ℕ)
        → big_iter huge s' b ≡ big_iter huge s o.big_overflow_idx ++ (r, i) ∷ []
        → IsLive huge s' b
        → ((h : ℕ)
            → o.big_overflow_idx ≢ some h
            → huge.slab.get s h ≢ none
            → huge.slab.get s' h ≡ huge.slab.get s h)
        → ((h : ℕ) → b ≡ some h → (o.big_overflow_idx ≡ some h) ⊎ (huge.slab.get s h ≡ none))
        → Writes huge s o r (some i) (s', record o { big_overflow_idx = b })
    big-Writes s' b grown live frame fresh = record {
      valid = record {
        idxs_size = v.idxs_size;
        radixs_size = v.radixs_size;
        within = v.within;
        live = live;
        light_distinct = v.light_distinct;
        big_distinct =
            rw grown
              (Distinct-push r i (big_iter huge s o.big_overflow_idx) big_absent v.big_distinct);
        apart = λ q. rw grown (
            ground (
              arith,
              v.apart q,
              light_absent,
              lookup-push r q i (big_iter huge s o.big_overflow_idx) big_absent,
            ));
      };
      reads = λ q. ground (
        arith,
        find-or huge s o q,
        find-or huge s' (record o { big_overflow_idx = b }) q,
        grown,
        light_absent,
        lookup-push r q i (big_iter huge s o.big_overflow_idx) big_absent,
      );
      frame = frame;
      fresh = fresh;
    }

    huge_push-Writes :
        length (big_iter huge s o.big_overflow_idx) < huge_overflow_capacity
        → 0 < huge.slab.room s
        → (b : Option ℕ) → o.big_overflow_idx ≡ b
        → Returns (big_push huge s o b r i) (Writes huge s o r (some i))
    unfolding big_push huge_new big_iter
    huge_push-Writes small room none e =
        let s' = huge.slab.add s x in
        let few = huge.push-room huge.empty (r, i) (rw huge.entries-empty (omega arith)) in
        (
          (s', record o { big_overflow_idx = some (huge.slab.next s) }),
          rw (few, huge.slab.insert-room s x room),
          big-Writes s' (some (huge.slab.next s)) (ground (arith, here, listed))
              (x, ground (arith, here), ground (arith, listed))
              (λ h _ old. ground (arith, huge.slab.get-add s x h room, huge.slab.get-next s))
              (λ h at. inr (ground (arith, at, huge.slab.get-next s))),
        )
      where
        x : Vec
        x = huge.pushed huge.empty (r, i)

        here : huge.slab.get (huge.slab.add s x) (huge.slab.next s) ≡ some x
        here = ground (arith, huge.slab.get-add s x (huge.slab.next s) room)

        listed : huge.entries x ≡ (r, i) ∷ []
        listed = rw (huge.entries-pushed, huge.entries-empty)
    huge_push-Writes small room (some h) e =
        let (old, at, full) = subst (IsLive huge s) e v.live in
        let x = huge.pushed old (r, i) in
        let s' = huge.slab.set s h x in
        let held : huge.entries old ≡ big_iter huge s o.big_overflow_idx = ground arith in
        let here = huge.slab.get-set s h x old in
        let listed = huge.entries-pushed old (r, i) in
        (
          (s', record o { big_overflow_idx = some h }),
          rw (at, huge.push-room old (r, i) (rw held small)) (ground arith),
          big-Writes s' (some h) (ground (arith, here h at, listed))
              (
                x,
                ground (arith, here h at),
                λ n. omega (
                  arith,
                  ap length (sym listed ∙ n),
                  length-append (huge.entries old) ((r, i) ∷ []),
                ),
              )
              (λ k other _. ground (arith, here k at)) (λ k same. inl (e ∙ same)),
        )

    -- A new radix goes to the arrays while they have a free cell, and then to the huge table: with
    -- room, the table takes it, stays valid, and reads as before under every other radix.
    pub push-Writes : HasRoom huge s o → Returns (push huge s o r i) (Writes huge s o r (some i))
    unfolding push
    push-Writes (inl h) = ((s, light_push o r i), ground arith, light_push-Writes h)
    push-Writes (inr (small, room)) = elim (Bool-cases (ltb o.len 10)) [
      | inl h ↦ ((s, light_push o r i), rw h, light_push-Writes (ground arith))
      | inr h ↦
          let (t, run, w) = huge_push-Writes small room o.big_overflow_idx refl in (t, rw h run, w)
    ]
