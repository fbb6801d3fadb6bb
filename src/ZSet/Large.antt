-- ===== src/ZSet/Large.antt =====
-- The double index keeps its two parts in step: `ZSetInner::insert`, `ZSetInner::remove`, and the
-- change from a vector.
use radixox.Common.{
  ℕ, ◌+◌, ◌≡◌, refl, sym, ap, ◌∙◌, subst, true, false, ◌⊎◌, inl, inr, if◌then◌else◌, Bool-cases,
  List, [], ◌∷◌, Option, none, some, same_bytes, same_bytes_eq, same_bytes_refl, length,
  length-append, arith,
}
use radixox.BTree
use radixox.BTree.{contains, place, erase}
use radixox.BTree.Laws.{IsSorted, place-IsSorted, length-place}
use radixox.Hash.Entries.{find, put, overwrite}
use radixox.Hash.Entries.{erase as forget}
use radixox.Hash.Entries.Laws.{find-put, find-erase, Distinct-put, Distinct-erase}
use radixox.Hash.Entries.Laws.{Distinct as Single}
use radixox.ZSet.{ZSetInner, enter, enter_all, promote}
use radixox.ZSet.Entries.{Floats, Entry, entry_order, score_in}
use radixox.ZSet.Entries.Laws.{
  Distinct, drop_member, score_in-drop, Distinct-drop, length-drop_member, contains_fresh,
  score_in-place, Distinct-place, erase-drop, drop-IsSorted,
}

module _ {F : Type 0} where
  length-overwrite :
      (m : List ℕ) (s : F) (es : List (List ℕ × F)) → length (overwrite m s es) ≡ length es
  length-overwrite m s [] = refl
  length-overwrite m s (e ∷ es) = ground (arith, length-overwrite m s es)

  pub length-put_new :
      (m : List ℕ) (s : F) (es : List (List ℕ × F))
      → find m es ≡ none
      → length (put m s es) ≡ length es + 1
  length-put_new m s es h = ground (arith, h, length-append es ((m, s) ∷ []))

  pub length-put_old :
      (m : List ℕ) (s old : F) (es : List (List ℕ × F))
      → find m es ≡ some old
      → length (put m s es) ≡ length es
  length-put_old m s old es h = ground (arith, h, length-overwrite m s es)

  length-forget-none :
      (m : List ℕ) (es : List (List ℕ × F)) → find m es ≡ none → length (forget m es) ≡ length es
  length-forget-none m [] h = refl
  length-forget-none m (e ∷ es) h = ground (arith, h, length-forget-none m es)

  length-forget :
      (m : List ℕ) (s : F) (es : List (List ℕ × F))
      → Single es
      → find m es ≡ some s
      → length (forget m es) + 1 ≡ length es
  length-forget m s [] d h = absurd (ground (arith, h))
  length-forget m s (e ∷ es) (first, d) h = elim (Bool-cases (same_bytes m e.0)) [
    | inl here ↦
        let gone : find m es ≡ none =
          ap (λ (a : List ℕ). find a es) (same_bytes_eq m e.0 here) ∙ first in
        ground (arith, here, length-forget-none m es gone)
    | inr there ↦ ground (arith, there, h, length-forget m s es d)
  ]

  -- Two searches, one after the other.
  abbrev pub or_else : Option F → Option F → Option F
  or_else none o = o
  or_else (some s) o = some s

  or_else-none : (o : Option F) → or_else o none ≡ o
  or_else-none none = refl
  or_else-none (some s) = refl

module _ {F : Type 0} (fl : Floats F) where
  -- The sorted index is sorted, with one entry for a member, and the map has the same scores.
  pub record IsLarge (z : ZSetInner F) : Type 0 where
    pub sorted : IsSorted (entry_order fl) z.sorted
    pub distinct : Distinct z.sorted
    pub reads : (q : List ℕ) → find q z.scores ≡ score_in q z.sorted
    pub counts : length z.scores ≡ length z.sorted
    pub single : Single z.scores

  -- What has become of an index that a new pair entered.
  pub record Entered (score : F) (member : List ℕ) (z z' : ZSetInner F) : Type 0 where
    pub valid : IsLarge z'
    pub gains :
        (q : List ℕ)
        → score_in q z'.sorted ≡ (if same_bytes q member then some score else score_in q z.sorted)
    pub longer : length z'.sorted ≡ length z.sorted + 1

  -- The sorted index has no entry for the member; the map may have an old score for it.
  pub enter-Entered :
      (score : F) (member : List ℕ) (z : ZSetInner F)
      → IsSorted (entry_order fl) z.sorted
      → Distinct z.sorted
      → score_in member z.sorted ≡ none
      → ((q : List ℕ) → same_bytes q member ≡ false → find q z.scores ≡ score_in q z.sorted)
      → length (put member score z.scores) ≡ length z.sorted + 1
      → Single z.scores
      → Entered score member z (enter fl z score member).1
  unfolding enter BTree.insert
  enter-Entered score member z s d new others count once =
      let off = contains_fresh fl score member z.sorted new in
      let placed = place (entry_order fl) (score, member) z.sorted in
      let after : ZSetInner F = record { sorted = placed; scores = put member score z.scores } in
      let step : (enter fl z score member).1 ≡ after = rw off refl in
      let gains : (q : List ℕ)
          → score_in q placed ≡ (if same_bytes q member then some score else score_in q z.sorted) =
        λ q. score_in-place fl score member q z.sorted new in
      let long = length-place (entry_order fl) (score, member) z.sorted in
      subst (Entered score member z) (sym step) (record {
        valid = record {
          sorted = place-IsSorted (entry_order fl) (score, member) z.sorted s off;
          distinct = Distinct-place fl score member z.sorted new d;
          reads = λ q. find-put member score q z.scores ∙ known q ∙ sym (gains q);
          counts = count ∙ sym long;
          single = Distinct-put member score z.scores once;
        };
        gains = gains;
        longer = long;
      })
    where
      known :
          (q : List ℕ)
          → (if same_bytes q member then some score else find q z.scores)
            ≡ (if same_bytes q member then some score else score_in q z.sorted)
      known q = elim (Bool-cases (same_bytes q member)) [
        | inl hit ↦ rw hit refl
        | inr miss ↦ rw (miss, others q miss) refl
      ]

  -- Entering a member that is not there yet.
  pub enter-new :
      (score : F) (member : List ℕ) (z : ZSetInner F)
      → IsLarge z
      → score_in member z.sorted ≡ none
      → Entered score member z (enter fl z score member).1
  enter-new score member z v new =
      enter-Entered score member z v.sorted v.distinct new (λ q h. v.reads q)
        (length-put_new member score z.scores (v.reads member ∙ new) ∙ ap (λ n. n + 1) v.counts)
        v.single

  -- No member is in both.
  abbrev Apart : List (Entry F) → ZSetInner F → Type 0
  Apart es z = (q : List ℕ) → (score_in q es ≡ none) ⊎ (score_in q z.sorted ≡ none)

  -- What has become of the index that the entries of a vector entered.
  record AllEntered (es : List (Entry F)) (z z' : ZSetInner F) : Type 0 where
    valid : IsLarge z'
    gains : (q : List ℕ) → score_in q z'.sorted ≡ or_else (score_in q es) (score_in q z.sorted)
    longer : length z'.sorted ≡ length z.sorted + length es

  enter_all-AllEntered :
      (es : List (Entry F)) (z : ZSetInner F)
      → IsLarge z
      → Distinct es
      → Apart es z
      → AllEntered es z (enter_all fl es z)
  unfolding score_in
  enter_all-AllEntered [] z v d apart = record {
    valid = v;
    gains = λ q. refl;
    longer = omega arith;
  }
  enter_all-AllEntered (e ∷ es) z v (first, d) apart =
      let one = enter-new e.0 e.1 z v new in
      let rest = enter_all-AllEntered es (enter fl z e.0 e.1).1 one.valid d (still one) in
      record {
        valid = rest.valid;
        gains = λ q. rest.gains q ∙ regroup one q;
        longer = omega (arith, rest.longer, one.longer);
      }
    where
      new : score_in e.1 z.sorted ≡ none
      new = elim (apart e.1) [
        | inr off ↦ off
        | inl missing ↦ absurd (ground (arith, missing, same_bytes_refl e.1))
      ]

      gone : (q : List ℕ) → same_bytes q e.1 ≡ true → score_in q es ≡ none
      gone q hit = ap (λ (a : List ℕ). score_in a es) (same_bytes_eq q e.1 hit) ∙ first

      still : Entered e.0 e.1 z (enter fl z e.0 e.1).1 → Apart es (enter fl z e.0 e.1).1
      still one q = elim (Bool-cases (same_bytes q e.1)) [
        | inl hit ↦ inl (gone q hit)
        | inr miss ↦ elim (apart q) [
          | inl off ↦ inl (ground (arith, off, miss))
          | inr off ↦ inr (one.gains q ∙ rw (miss, off) refl)
        ]
      ]

      regroup :
          Entered e.0 e.1 z (enter fl z e.0 e.1).1
          → (q : List ℕ)
          → or_else (score_in q es) (score_in q (enter fl z e.0 e.1).1.sorted)
            ≡ or_else (score_in q (e ∷ es)) (score_in q z.sorted)
      regroup one q = elim (Bool-cases (same_bytes q e.1)) [
        | inl hit ↦ ground (arith, one.gains q, hit, gone q hit)
        | inr miss ↦ ground (arith, one.gains q, miss)
      ]

  -- The double index that is made of a vector and a new member has the scores of both.
  pub promote-Entered :
      (vec : List (Entry F)) (score : F) (member : List ℕ)
      → Distinct vec
      → score_in member vec ≡ none
      → IsLarge (promote fl vec score member)
        × ((q : List ℕ)
            → score_in q (promote fl vec score member).sorted
              ≡ (if same_bytes q member then some score else score_in q vec))
        × (length (promote fl vec score member).sorted ≡ length vec + 1)
  unfolding promote score_in
  promote-Entered vec score member d new =
      let empty : ZSetInner F = record { sorted = []; scores = [] } in
      let start : IsLarge empty = record {
        sorted = tt;
        distinct = tt;
        reads = λ q. refl;
        counts = refl;
        single = tt;
      } in
      let all = enter_all-AllEntered vec empty start d (λ q. inr refl) in
      let same : (q : List ℕ) → score_in q (enter_all fl vec empty).sorted ≡ score_in q vec =
        λ q. all.gains q ∙ or_else-none (score_in q vec) in
      let last = enter-new score member (enter_all fl vec empty) all.valid (same member ∙ new) in
      (
        last.valid,
        λ q. last.gains q ∙ ap (λ o. if same_bytes q member then some score else o) (same q),
        omega (arith, last.longer, all.longer),
      )

  -- The sorted index without the old entry of the member.
  abbrev pub without : F → List ℕ → ZSetInner F → ZSetInner F
  without old member z = record z {
    sorted = (BTree.remove (entry_order fl) (old, member) z.sorted).1;
  }

  without-drop :
      (old : F) (member : List ℕ) (z : ZSetInner F)
      → score_in member z.sorted ≡ some old
      → (without old member z).sorted ≡ drop_member member z.sorted
  unfolding BTree.remove
  without-drop old member z there = erase-drop fl old member z.sorted there

  -- A member that is there enters with another score, in place of its old entry.
  pub enter-again :
      (score old : F) (member : List ℕ) (z : ZSetInner F)
      → IsLarge z
      → find member z.scores ≡ some old
      → let z' = (enter fl (without old member z) score member).1 in
        IsLarge z'
        × ((q : List ℕ)
            → score_in q z'.sorted
              ≡ (if same_bytes q member then some score else score_in q z.sorted))
        × (length z'.sorted ≡ length z.sorted)
  enter-again score old member z v on =
      let there : score_in member z.sorted ≡ some old = sym (v.reads member) ∙ on in
      let dropped = without-drop old member z there in
      let away : (q : List ℕ)
          → score_in q (without old member z).sorted
            ≡ (if same_bytes q member then none else score_in q z.sorted) =
        λ q. ap (score_in q) dropped ∙ score_in-drop member q z.sorted v.distinct in
      let shorter : length (without old member z).sorted + 1 ≡ length z.sorted =
        ap (λ es. length es + 1) dropped ∙ length-drop_member member z.sorted old there in
      let done =
        enter-Entered score member (without old member z)
          (subst (IsSorted (entry_order fl)) (sym dropped)
            (drop-IsSorted fl member z.sorted v.sorted))
          (subst Distinct (sym dropped) (Distinct-drop member z.sorted v.distinct))
          (away member ∙ rw (same_bytes_refl member) refl)
          (λ q miss. v.reads q ∙ sym (away q ∙ rw miss refl))
          (length-put_old member score old z.scores on ∙ v.counts ∙ sym shorter) v.single in
      (
        done.valid,
        λ q. done.gains q ∙ elim (Bool-cases (same_bytes q member)) [
          | inl hit ↦ rw hit refl
          | inr miss ↦ rw miss (away q ∙ rw miss refl)
        ],
        omega (arith, done.longer, shorter),
      )

  -- A member leaves both parts.
  pub leave :
      (old : F) (member : List ℕ) (z : ZSetInner F)
      → IsLarge z
      → find member z.scores ≡ some old
      → let z' = record (without old member z) { scores = forget member z.scores } in
        IsLarge z'
        × ((q : List ℕ)
            → find q z'.scores ≡ (if same_bytes q member then none else find q z.scores))
        × (length z'.scores + 1 ≡ length z.scores)
  leave old member z v on =
      let there : score_in member z.sorted ≡ some old = sym (v.reads member) ∙ on in
      let dropped = without-drop old member z there in
      let fewer = length-forget member old z.scores v.single on in
      let shorter : length (without old member z).sorted + 1 ≡ length z.sorted =
        ap (λ es. length es + 1) dropped ∙ length-drop_member member z.sorted old there in
      let away =
        λ (q : List ℕ). ap (score_in q) dropped ∙ score_in-drop member q z.sorted v.distinct in
      (
        record {
          sorted =
              subst (IsSorted (entry_order fl)) (sym dropped)
                (drop-IsSorted fl member z.sorted v.sorted);
          distinct = subst Distinct (sym dropped) (Distinct-drop member z.sorted v.distinct);
          reads = λ q.
              find-erase member q z.scores
              ∙ ap (λ o. if same_bytes q member then none else o) (v.reads q)
              ∙ sym (away q);
          counts = omega (arith, fewer, shorter, v.counts);
          single = Distinct-erase member z.scores v.single;
        },
        λ q. find-erase member q z.scores,
        fewer,
      )
