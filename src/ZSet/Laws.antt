-- ===== src/ZSet/Laws.antt =====
-- Both forms of a sorted set are a finite map from members to scores: what each operation does to it.
use radixox.Common.{
  ℕ, ◌+◌, ◌≤◌, ◌≡◌, refl, sym, ap, ◌∙◌, Bool, true, false, inl, inr, if◌then◌else◌, Bool-cases,
  List, Option, none, some, same_bytes, same_bytes_eq, length,
}
use radixox.BTree.Laws.{IsSorted}
use radixox.ZSet.{ZSet, ZSetInner, small, large, same_score, is_none, is_some, score, len, iter}
use radixox.ZSet.Entries.{Floats, Entry, entry_order, score_in}
use radixox.ZSet.Entries.Laws.{Distinct}
use radixox.ZSet.Large.{IsLarge}

module _ {F : Type 0} (fl : Floats F) where
  -- The vector has at most as many entries as the threshold; the parts of the double index are in
  -- step.
  abbrev pub Fits : ZSet F → Type 0
  Fits (small vec) = length vec ≤ 16
  Fits (large z) = IsLarge fl z

  pub record IsValid (z : ZSet F) : Type 0 where
    pub sorted : IsSorted (entry_order fl) (iter z)
    pub distinct : Distinct (iter z)
    pub reads : (q : List ℕ) → score q z ≡ score_in q (iter z)
    pub counts : len z ≡ length (iter z)
    pub fits : Fits z

  -- An old score in the same place of the order stays.
  abbrev pub kept : Option F → F → F
  kept none s = s
  kept (some old) s = if same_score fl old s then old else s

  pub record Inserts (s : F) (m : List ℕ) (z : ZSet F) (r : Bool × ZSet F) : Type 0 where
    pub valid : IsValid r.1
    pub told : r.0 ≡ is_none (score m z)
    pub reads :
        (q : List ℕ)
        → score q r.1 ≡ (if same_bytes q m then some (kept (score m z) s) else score q z)
    pub counts : len r.1 ≡ (if r.0 then len z + 1 else len z)

  pub record Removes (m : List ℕ) (z : ZSet F) (r : Bool × ZSet F) : Type 0 where
    pub valid : IsValid r.1
    pub told : r.0 ≡ is_some (score m z)
    pub reads : (q : List ℕ) → score q r.1 ≡ (if same_bytes q m then none else score q z)
    pub counts : (if r.0 then len r.1 + 1 else len r.1) ≡ len z

  pub small-IsValid :
      (vec : List (Entry F))
      → IsSorted (entry_order fl) vec
      → Distinct vec
      → length vec ≤ 16
      → IsValid (small vec)
  unfolding score iter len
  small-IsValid vec s d few = record {
    sorted = s;
    distinct = d;
    reads = λ q. refl;
    counts = refl;
    fits = few;
  }

  pub large-IsValid : (z : ZSetInner F) → IsLarge fl z → IsValid (large z)
  unfolding score iter len
  large-IsValid z v = record {
    sorted = v.sorted;
    distinct = v.distinct;
    reads = v.reads;
    counts = v.counts;
    fits = v;
  }

  -- Where the old score stays, nothing changes.
  pub unchanged :
      (s old : F) (m : List ℕ) (z : ZSet F)
      → IsValid z
      → score m z ≡ some old
      → same_score fl old s ≡ true
      → Inserts s m z (false, z)
  unchanged s old m z v on stays = record {
    valid = v;
    told = rw on refl;
    reads = λ q. elim (Bool-cases (same_bytes q m)) [
      | inl hit ↦
          ap (λ (a : List ℕ). score a z) (same_bytes_eq q m hit)
          ∙ on
          ∙ sym (rw (hit, on, stays) refl)
      | inr miss ↦ rw miss refl
    ];
    counts = refl;
  }
