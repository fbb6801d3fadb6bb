-- ===== src/Slab/Bounded.antt =====
-- A slab with a fixed number of slots, which hands out each index once. It has every law that the
-- interfaces ask for.
use radixox.Common.{
  ℕ, ◌+◌, ◌-◌, ◌≡◌, ◌<◌, suc, refl, Option, none, some, Bool, true, false, ltb, ◌==◌, if◌then◌else◌,
  Run, ok, panic, ◌>>=◌, arith, no_index,
}
use native.Mathlib.Nat.{le_refl}
use radixox.Slab.{HiSlab, TaggedHiSlab}

pub record Slots (A : Type 0) : Type 0 where
  pub used : ℕ
  pub cell : ℕ → Option A
  pub mark : ℕ → Bool

abbrev limit : ℕ
limit = 1000000

module _ {A : Type 0} where
  abbrev pub empty : Slots A
  empty = record { used = 0; cell = λ i. none; mark = λ i. false }

  abbrev pub get : Slots A → ℕ → Option A
  get s i = if ltb i s.used then s.cell i else none

  abbrev pub write : Slots A → ℕ → Option A → Slots A
  write s i v = record s { cell = λ j. if i == j then v else s.cell j }

  abbrev pub add : Slots A → A → Slots A
  add s a = record (write s s.used (some a)) {
    used = s.used + 1;
    mark = λ j. if s.used == j then false else s.mark j;
  }

  abbrev pub insert : Slots A → A → Run (ℕ × Slots A)
  insert s a = if ltb s.used limit then ok (s.used, add s a) else panic

  abbrev pub remove : Slots A → ℕ → Slots A
  remove s i = record (write s i none) { mark = λ j. if i == j then false else s.mark j }

  abbrev pub mark_as : Bool → Slots A → ℕ → Slots A
  mark_as b s i = record s { mark = λ j. if i == j then b else s.mark j }

  pub insert-room : (s : Slots A) (a : A) → 0 < limit - s.used → insert s a ≡ ok (s.used, add s a)
  insert-room s a h = ground arith

  pub get-add :
      (s : Slots A) (a : A) (i : ℕ)
      → 0 < limit - s.used
      → get (add s a) i ≡ (if s.used == i then some a else get s i)
  get-add s a i h = ground arith

  pub get-empty : (i : ℕ) → get empty i ≡ none
  get-empty i = ground arith

  pub get-next : (s : Slots A) → get s s.used ≡ none
  get-next s = ground arith

  pub get-set :
      (s : Slots A) (j : ℕ) (a b : A) (i : ℕ)
      → get s j ≡ some b
      → get (write s j (some a)) i ≡ (if j == i then some a else get s i)
  get-set s j a b i h = ground arith

  pub get-remove : (s : Slots A) (j i : ℕ) → get (remove s j) i ≡ (if j == i then none else get s i)
  get-remove s j i = ground arith

  pub room-add : (s : Slots A) → 0 < limit - s.used → suc (limit - (s.used + 1)) ≡ limit - s.used
  room-add s h = omega arith

  pub used-ne-no_index : (s : Slots A) → 0 < limit - s.used → s.used ≡ no_index → ⊥
  used-ne-no_index s h e = omega arith

module _ (A : Type 0) where
  abbrev pub slots : HiSlab A
  slots = record {
    Slab = Slots A;
    empty = empty;
    room = λ s. limit - s.used;
    get = get;
    set = λ s i a. write s i (some a);
    insert = insert;
    next = λ s. s.used;
    add = add;
    remove = remove;
    insert-room = insert-room;
    room-add = λ s a. room-add s;
    room-set = λ s i a. refl;
    room-remove = λ s i. le_refl (limit - s.used);
    get-empty = get-empty;
    get-next = get-next;
    next-ne-no_index = used-ne-no_index;
    get-add = get-add;
    get-set = get-set;
    get-remove = get-remove;
  }

  abbrev pub tagged_slots : TaggedHiSlab A
  tagged_slots = record {
    slab = slots;
    tag = mark_as true;
    untag = mark_as false;
    tagged = λ s. s.mark;
    insert_tagged = λ s a. insert s a >>= λ r. ok (r.0, mark_as true r.1 r.0);
    insert_tagged-eq = λ s a. refl;
    room-tag = λ s i. refl;
    room-untag = λ s i. refl;
    get-tag = λ s j i. refl;
    get-untag = λ s j i. refl;
    tagged-add = λ s a i h. refl;
    tagged-set = λ s j a i. refl;
    tagged-remove = λ s j i. refl;
    tagged-tag = λ s j i. refl;
    tagged-untag = λ s j i. refl;
  }
