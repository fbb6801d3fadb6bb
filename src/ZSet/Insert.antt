-- ===== src/ZSet/Insert.antt =====
-- What `insert` does to a sorted set in each of its forms.
use radixox.Common.{
  ℕ, ◌≤◌, ◌≡◌, refl, sym, ap, ◌∙◌, subst, true, false, inl, inr, leb, if◌then◌else◌, Bool-cases,
  Option-cases, List, Option, none, some, same_bytes, same_bytes_refl, length, arith,
}
use radixox.BTree.{place}
use radixox.BTree.Laws.{IsSorted, place-IsSorted, length-place}
use radixox.Hash.Entries.{find}
use radixox.ZSet.{
  ZSet, ZSetInner, small, large, threshold, same_score, enter, inner_insert, promote, in_large,
  small_insert_at, inner_insert_at, insert, score, len, iter,
}
use radixox.ZSet.Entries.{Floats, Entry, entry_order, score_in, locate, remove_at}
use radixox.ZSet.Entries.Laws.{
  Distinct, drop_member, locate-none, locate-some, score_in-drop, Distinct-drop, length-drop_member,
  contains_fresh, score_in-place, Distinct-place, drop-IsSorted,
}
use radixox.ZSet.Large.{enter-new, promote-Entered, enter-again, without}
use radixox.ZSet.Laws.{IsValid, kept, Inserts, small-IsValid, large-IsValid, unchanged}

module _ {F : Type 0} (fl : Floats F) where
  small_score :
      (m : List ℕ) (vec : List (Entry F)) {o : Option F}
      → score_in m vec ≡ o
      → score m (small vec) ≡ o
  unfolding score
  small_score m vec h = h

  -- A new score takes the place of one that is elsewhere in the order.
  overwritten :
      (s old : F) (m q : List ℕ) (o p r : Option F)
      → r ≡ some old
      → same_score fl old s ≡ false
      → o ≡ (if same_bytes q m then none else p)
      → (if same_bytes q m then some s else o) ≡ (if same_bytes q m then some (kept fl r s) else p)
  overwritten s old m q o p r there moves away = elim (Bool-cases (same_bytes q m)) [
    | inl hit ↦ rw (hit, there, moves) refl
    | inr miss ↦ rw miss (away ∙ rw miss refl)
  ]

  -- The vector takes the place of one without an entry for the member, which is one shorter.
  placed :
      (s : F) (m : List ℕ) (vec : List (Entry F))
      → IsSorted (entry_order fl) vec
      → Distinct vec
      → score_in m vec ≡ none
      → length vec ≤ 15
      → IsValid fl (small (place (entry_order fl) (s, m) vec))
  placed s m vec sorted distinct new room =
      small-IsValid fl (place (entry_order fl) (s, m) vec)
        (place-IsSorted (entry_order fl) (s, m) vec sorted (contains_fresh fl s m vec new))
        (Distinct-place fl s m vec new distinct)
        (omega (arith, length-place (entry_order fl) (s, m) vec))

  added :
      (s : F) (m : List ℕ) (vec : List (Entry F))
      → IsValid fl (small vec)
      → score_in m vec ≡ none
      → leb threshold (length vec) ≡ false
      → Inserts fl s m (small vec) (true, small (place (entry_order fl) (s, m) vec))
  unfolding score len iter
  added s m vec v new room = record {
    valid = placed s m vec v.sorted v.distinct new (ground (arith, room));
    told = rw new refl;
    reads = λ q.
        score_in-place fl s m q vec new
        ∙ ap (λ o. if same_bytes q m then some (kept fl o s) else score_in q vec) (sym new);
    counts = length-place (entry_order fl) (s, m) vec;
  }

  grown :
      (s : F) (m : List ℕ) (vec : List (Entry F))
      → IsValid fl (small vec)
      → score_in m vec ≡ none
      → Inserts fl s m (small vec) (true, large (promote fl vec s m))
  unfolding score len iter
  grown s m vec v new =
      let (done, gains, longer) = promote-Entered fl vec s m v.distinct new in
      record {
        valid = large-IsValid fl (promote fl vec s m) done;
        told = rw new refl;
        reads = λ q.
            done.reads q
            ∙ gains q
            ∙ ap (λ o. if same_bytes q m then some (kept fl o s) else score_in q vec) (sym new);
        counts = done.counts ∙ longer;
      }

  moved :
      (s old : F) (m : List ℕ) (vec : List (Entry F)) (pos : ℕ)
      → IsValid fl (small vec)
      → locate m vec ≡ some (pos, old)
      → same_score fl old s ≡ false
      → Inserts fl s m
          (small vec)
          (false, small (place (entry_order fl) (s, m) (remove_at pos vec)))
  unfolding score len iter
  moved s old m vec pos v on moves =
      let (there, gone) = locate-some m vec pos old on in
      let shorter = length-drop_member m vec old there in
      let away = λ (q : List ℕ). score_in-drop m q vec v.distinct in
      let new : score_in m (drop_member m vec) ≡ none = away m ∙ rw (same_bytes_refl m) refl in
      subst (λ rest. Inserts fl s m (small vec) (false, small (place (entry_order fl) (s, m) rest)))
        (sym gone)
        (record {
          valid =
              placed s m (drop_member m vec) (drop-IsSorted fl m vec v.sorted)
                (Distinct-drop m vec v.distinct) new (omega (arith, shorter, v.fits));
          told = rw there refl;
          reads = λ q.
              score_in-place fl s m q (drop_member m vec) new
              ∙ overwritten s old m q (score_in q (drop_member m vec)) (score_in q vec)
                  (score_in m vec) there moves (away q);
          counts = omega (arith, length-place (entry_order fl) (s, m) (drop_member m vec), shorter);
        })

  small-insert :
      (s : F) (m : List ℕ) (vec : List (Entry F))
      → IsValid fl (small vec)
      → Inserts fl s m (small vec) (insert fl s m (small vec))
  unfolding insert
  small-insert s m vec v = elim (Option-cases (locate m vec)) [
    | inl off ↦
        let step = ap (small_insert_at fl s m vec) off in
        let new = locate-none m vec off in
        elim (Bool-cases (leb threshold (length vec))) [
          | inl full ↦
              subst (Inserts fl s m (small vec)) (sym (step ∙ rw full refl)) (grown s m vec v new)
          | inr room ↦
              subst (Inserts fl s m (small vec)) (sym (step ∙ rw room refl))
                (added s m vec v new room)
        ]
    | inr ((pos, old), on) ↦
        let step = ap (small_insert_at fl s m vec) on in
        let there = small_score m vec (locate-some m vec pos old on).0 in
        elim (Bool-cases (same_score fl old s)) [
          | inl stays ↦
              subst (Inserts fl s m (small vec)) (sym (step ∙ rw stays refl))
                (unchanged fl s old m (small vec) v there stays)
          | inr moves ↦
              subst (Inserts fl s m (small vec)) (sym (step ∙ rw moves refl))
                (moved s old m vec pos v on moves)
        ]
  ]

  entered :
      (s : F) (m : List ℕ) (z : ZSetInner F)
      → IsValid fl (large z)
      → find m z.scores ≡ none
      → Inserts fl s m (large z) (in_large (enter fl z s m))
  unfolding enter score len iter
  entered s m z v off =
      let one = enter-new fl s m z v.fits (sym (v.reads m) ∙ off) in
      record {
        valid = large-IsValid fl (enter fl z s m).1 one.valid;
        told = refl;
        reads = λ q.
            one.valid.reads q
            ∙ one.gains q
            ∙ ap (λ o. if same_bytes q m then some (kept fl o s) else score_in q z.sorted) (sym off)
            ∙ ap (λ o. if same_bytes q m then some (kept fl (find m z.scores) s) else o)
                (sym (v.reads q));
        counts = rw off (omega (arith, one.valid.counts, one.longer, v.counts));
      }

  changed :
      (s old : F) (m : List ℕ) (z : ZSetInner F)
      → IsValid fl (large z)
      → find m z.scores ≡ some old
      → same_score fl old s ≡ false
      → Inserts fl s m (large z) (in_large (enter fl (without fl old m z) s m))
  unfolding score len iter enter
  changed s old m z v on moves =
      let (done, gains, long) = enter-again fl s old m z v.fits on in
      record {
        valid = large-IsValid fl (enter fl (without fl old m z) s m).1 done;
        told = refl;
        reads = λ q. done.reads q ∙ gains q ∙ elim (Bool-cases (same_bytes q m)) [
          | inl hit ↦ rw (hit, on, moves) refl
          | inr miss ↦ rw miss (sym (v.reads q))
        ];
        counts = rw on (omega (arith, done.counts, long, v.counts));
      }

  large-insert :
      (s : F) (m : List ℕ) (z : ZSetInner F)
      → IsValid fl (large z)
      → Inserts fl s m (large z) (insert fl s m (large z))
  unfolding insert inner_insert score
  large-insert s m z v = elim (Option-cases (find m z.scores)) [
    | inl off ↦
        let step = ap (λ o. in_large (inner_insert_at fl z s m o)) off in
        subst (Inserts fl s m (large z)) (sym step) (entered s m z v off)
    | inr (old, on) ↦
        let step = ap (λ o. in_large (inner_insert_at fl z s m o)) on in
        elim (Bool-cases (same_score fl old s)) [
          | inl stays ↦
              subst (Inserts fl s m (large z)) (sym (step ∙ rw stays refl))
                (unchanged fl s old m (large z) v on stays)
          | inr moves ↦
              subst (Inserts fl s m (large z)) (sym (step ∙ rw moves refl))
                (changed s old m z v on moves)
        ]
  ]

  -- `insert` keeps a sorted set valid, through the change from a vector to the double index too; it
  -- says whether the member was absent, the member then has the new score, unless the old one is in the
  -- same place of the order, and every other member has the score that it had.
  pub insert-Scores :
      (s : F) (m : List ℕ) (z : ZSet F) → IsValid fl z → Inserts fl s m z (insert fl s m z)
  insert-Scores s m (small vec) v = small-insert s m vec v
  insert-Scores s m (large z) v = large-insert s m z v
