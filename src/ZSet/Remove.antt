-- ===== src/ZSet/Remove.antt =====
-- What `remove` does to a sorted set in each of its forms.
use radixox.Common.{
  ℕ, ◌≡◌, refl, sym, ap, ◌∙◌, subst, true, false, inl, inr, Bool-cases, Option-cases, List, none,
  same_bytes, same_bytes_eq, arith,
}
use radixox.Hash.Entries.{find}
use radixox.ZSet.{
  ZSet, ZSetInner, small, large, inner_remove, in_large, small_remove_at, inner_remove_at, remove,
  score, len, iter,
}
use radixox.ZSet.Entries.{Floats, Entry, locate}
use radixox.ZSet.Entries.Laws.{
  drop_member, locate-none, locate-some, score_in-drop, Distinct-drop, length-drop_member,
  drop-IsSorted,
}
use radixox.ZSet.Large.{leave}
use radixox.ZSet.Laws.{IsValid, Removes, small-IsValid, large-IsValid}

module _ {F : Type 0} (fl : Floats F) where
  absent : (m : List ℕ) (z : ZSet F) → IsValid fl z → score m z ≡ none → Removes fl m z (false, z)
  absent m z v off = record {
    valid = v;
    told = rw off refl;
    reads = λ q. elim (Bool-cases (same_bytes q m)) [
      | inl hit ↦ ap (λ (a : List ℕ). score a z) (same_bytes_eq q m hit) ∙ off ∙ sym (rw hit refl)
      | inr miss ↦ rw miss refl
    ];
    counts = refl;
  }

  small-remove :
      (m : List ℕ) (vec : List (Entry F))
      → IsValid fl (small vec)
      → Removes fl m (small vec) (remove fl m (small vec))
  unfolding remove score len iter
  small-remove m vec v = elim (Option-cases (locate m vec)) [
    | inl off ↦
        subst (Removes fl m (small vec)) (sym (ap (small_remove_at fl vec) off))
          (absent m (small vec) v (locate-none m vec off))
    | inr ((pos, old), on) ↦
        let (there, gone) = locate-some m vec pos old on in
        let shorter = length-drop_member m vec old there in
        subst (Removes fl m (small vec)) (sym (ap (small_remove_at fl vec) on)) (
          subst (λ rest. Removes fl m (small vec) (true, small rest)) (sym gone)
            (record {
              valid =
                  small-IsValid fl (drop_member m vec) (drop-IsSorted fl m vec v.sorted)
                    (Distinct-drop m vec v.distinct) (omega (arith, shorter, v.fits));
              told = rw there refl;
              reads = λ q. score_in-drop m q vec v.distinct;
              counts = shorter;
            }))
  ]

  large-remove :
      (m : List ℕ) (z : ZSetInner F)
      → IsValid fl (large z)
      → Removes fl m (large z) (remove fl m (large z))
  unfolding remove inner_remove score len iter
  large-remove m z v = elim (Option-cases (find m z.scores)) [
    | inl off ↦
        subst (Removes fl m (large z)) (sym (ap (λ o. in_large (inner_remove_at fl z m o)) off))
          (absent m (large z) v off)
    | inr (old, on) ↦
        let (done, reads, shorter) = leave fl old m z v.fits on in
        subst (Removes fl m (large z)) (sym (ap (λ o. in_large (inner_remove_at fl z m o)) on))
          (record {
            valid = large-IsValid fl _ done;
            told = rw on refl;
            reads = reads;
            counts = shorter;
          })
  ]

  -- `remove` keeps a sorted set valid and says whether the member was there; the member has no score
  -- then, and every other member has the score that it had.
  pub remove-Scores : (m : List ℕ) (z : ZSet F) → IsValid fl z → Removes fl m z (remove fl m z)
  remove-Scores m (small vec) v = small-remove m vec v
  remove-Scores m (large z) v = large-remove m z v
