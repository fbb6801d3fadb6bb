-- ===== src/Hash/Laws.antt =====
-- A hash in either form is a finite map from fields to values.
use radixox.Common.{
  ℕ, ◌≤◌, ◌≡◌, refl, sym, subst, ap, ◌∙◌, inl, inr, Bool, true, false, leb, if◌then◌else◌,
  Bool-cases, List, [], ◌∷◌, ◌++◌, Option, none, some, Option-cases, same_bytes, same_bytes_eq,
  arith, length, length-append, get_or, swap_remove,
}
use radixox.Hash.{Hash, small, large, entries, threshold, insert, get, del}
use radixox.Hash.Entries.{Fields, find, overwrite, put, put_all, position}
use radixox.Hash.Entries.Laws.{
  Distinct, written, deleted, find-put, Distinct-put, find-put_all_nil, Distinct-put_all,
  find-erase, Distinct-erase,
}
use radixox.Hash.Entries.Swap.{
  find-swap_remove, Distinct-swap_remove, position-find, position-none, length-swap_remove_le,
}

abbrev pub IsFew : Hash → Type 0
IsFew (small vec) = length vec ≤ threshold
IsFew (large map) = Unit

-- No field has two entries, and a vector has at most sixteen.
pub record IsValid (h : Hash) : Type 0 where
  pub distinct : Distinct (entries h)
  pub few : IsFew h

abbrev pub is_none : Option (List ℕ) → Bool
is_none none = true
is_none (some v) = false

pub record Puts (field value : List ℕ) (h : Hash) (r : Bool × Hash) : Type 0 where
  pub valid : IsValid r.1
  pub told : r.0 ≡ is_none (get field h)
  pub reads : (q : List ℕ) → get q r.1 ≡ (if same_bytes q field then some value else get q h)

length-overwrite : (f v : List ℕ) (es : Fields) → length (overwrite f v es) ≡ length es
length-overwrite f v [] = refl
length-overwrite f v (e ∷ es) = ground (arith, length-overwrite f v es)

-- `insert` keeps a hash valid, through the change to a hash map too; it says whether the field was
-- absent, and the field then has the value, and every other field the one it had.
pub insert-Puts :
    (field value : List ℕ) (h : Hash) → IsValid h → Puts field value h (insert field value h)
unfolding insert get
insert-Puts field value (small vec) v = elim (Option-cases (find field vec)) [
  | inr (w, on) ↦
      let old : put field value vec ≡ overwrite field value vec = ground (arith, on) in
      let step : insert field value (small vec) ≡ (false, small (overwrite field value vec)) =
        ground (arith, on) in
      subst (Puts field value (small vec)) (sym step) (record {
        valid = record {
          distinct = subst Distinct old (Distinct-put field value vec v.distinct);
          few = omega (arith, v.few, length-overwrite field value vec);
        };
        told = ground (arith, on);
        reads = λ q. ap (find q) (sym old) ∙ find-put field value q vec;
      })
  | inl off ↦
      let new : put field value vec ≡ vec ++ (field, value) ∷ [] = ground (arith, off) in
      elim (Bool-cases (leb threshold (length vec))) [
        | inl full ↦
            let map = put_all vec [] in
            let step : insert field value (small vec) ≡ (true, large (put field value map)) =
              ground (arith, off, full) in
            subst (Puts field value (small vec)) (sym step) (record {
              valid = record {
                distinct = Distinct-put field value map (Distinct-put_all vec [] tt);
                few = tt;
              };
              told = ground (arith, off);
              reads = λ q.
                  find-put field value q map
                  ∙ ap (written field value q) (find-put_all_nil q vec v.distinct);
            })
        | inr room ↦
            let step : insert field value (small vec) ≡ (true, small (vec ++ (field, value) ∷ [])) =
              ground (arith, off, room) in
            subst (Puts field value (small vec)) (sym step) (record {
              valid = record {
                distinct = subst Distinct new (Distinct-put field value vec v.distinct);
                few = ground (arith, room, length-append vec ((field, value) ∷ []));
              };
              told = ground (arith, off);
              reads = λ q. ap (find q) (sym new) ∙ find-put field value q vec;
            })
      ]
]
insert-Puts field value (large map) v = record {
  valid = record { distinct = Distinct-put field value map v.distinct; few = tt };
  told = ground arith;
  reads = λ q. find-put field value q map;
}

pub record Deletes (field : List ℕ) (h : Hash) (r : Option (List ℕ) × Hash) : Type 0 where
  pub valid : IsValid r.1
  pub told : r.0 ≡ get field h
  pub reads : (q : List ℕ) → get q r.1 ≡ (if same_bytes q field then none else get q h)

-- Nothing is deleted where there is nothing.
find-absent : (f q : List ℕ) (es : Fields) → find f es ≡ none → deleted f q (find q es) ≡ find q es
find-absent f q es off = elim (Bool-cases (same_bytes q f)) [
  | inr other ↦ rw other refl
  | inl same ↦
      let here : find q es ≡ none = ap (λ (a : List ℕ). find a es) (same_bytes_eq q f same) ∙ off in
      ground (arith, same, here)
]

-- `del` keeps a hash valid and returns the value of the field, if it has one; the field has none then,
-- and every other field the value it had.
pub del-Deletes : (field : List ℕ) (h : Hash) → IsValid h → Deletes field h (del field h)
unfolding del get
del-Deletes field (small vec) v = elim (Option-cases (position field vec)) [
  | inl off ↦
      let absent = position-none field vec off in
      let step : del field (small vec) ≡ (none, small vec) = ground (arith, off) in
      subst (Deletes field (small vec)) (sym step)
        (record { valid = v; told = sym absent; reads = λ q. sym (find-absent field q vec absent) })
  | inr (p, on) ↦
      let step : del field (small vec)
          ≡ (some (get_or vec p ([], [])).1, small (swap_remove vec p)) =
        ground (arith, on) in
      subst (Deletes field (small vec)) (sym step) (record {
        valid = record {
          distinct = Distinct-swap_remove field p vec v.distinct on;
          few = omega (arith, v.few, length-swap_remove_le vec p);
        };
        told = sym (position-find field p vec ([], []) on);
        reads = λ q. find-swap_remove field q p vec v.distinct on;
      })
]
del-Deletes field (large map) v = record {
  valid = record { distinct = Distinct-erase field map v.distinct; few = tt };
  told = refl;
  reads = λ q. find-erase field q map;
}
