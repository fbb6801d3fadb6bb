-- ===== src/Slab.antt =====
-- The slab allocators of the crate `hislab`, which the tree uses and does not implement. A slab
-- hands out indices for the values that it stores, while it has room; an index stays good until
-- its value is removed. A tagged slab also marks some of its values. The laws are those that the
-- tree relies on. `Slab.Bounded` is an allocator that has them.
pub mod Bounded
use radixox.Common.{
  ℕ, ◌≡◌, ◌≢◌, ◌<◌, ◌≤◌, suc, Option, none, some, Bool, true, false, ◌==◌, if◌then◌else◌, Run, ok,
  ◌>>=◌, no_index,
}

pub record HiSlab (A : Type 0) : Type 1 where
  pub Slab : Type 0
  -- `HiSlab::new`
  pub empty : Slab
  -- the free slots
  pub room : Slab → ℕ
  pub get : Slab → ℕ → Option A
  -- a write through the reference that `get_mut` returns
  pub set : Slab → ℕ → A → Slab
  pub insert : Slab → A → Run (ℕ × Slab)
  -- the index and the slab that `insert` returns while there is room
  pub next : Slab → ℕ
  pub add : Slab → A → Slab
  pub remove : Slab → ℕ → Slab
  pub insert-room : (s : Slab) (a : A) → 0 < room s → insert s a ≡ ok (next s, add s a)
  pub room-add : (s : Slab) (a : A) → 0 < room s → suc (room (add s a)) ≡ room s
  pub room-set : (s : Slab) (i : ℕ) (a : A) → room (set s i a) ≡ room s
  pub room-remove : (s : Slab) (i : ℕ) → room s ≤ room (remove s i)
  pub get-empty : (i : ℕ) → get empty i ≡ none
  pub get-next : (s : Slab) → get s (next s) ≡ none
  pub next-ne-no_index : (s : Slab) → 0 < room s → next s ≢ no_index
  pub get-add :
      (s : Slab) (a : A) (i : ℕ)
      → 0 < room s
      → get (add s a) i ≡ (if next s == i then some a else get s i)
  pub get-set :
      (s : Slab) (j : ℕ) (a b : A) (i : ℕ)
      → get s j ≡ some b
      → get (set s j a) i ≡ (if j == i then some a else get s i)
  pub get-remove : (s : Slab) (j i : ℕ) → get (remove s j) i ≡ (if j == i then none else get s i)

pub record TaggedHiSlab (A : Type 0) : Type 1 where
  pub slab : HiSlab A
  pub open slab use *
  pub tag : Slab → ℕ → Slab
  pub untag : Slab → ℕ → Slab
  pub tagged : Slab → ℕ → Bool
  pub insert_tagged : Slab → A → Run (ℕ × Slab)
  pub insert_tagged-eq :
      (s : Slab) (a : A) → insert_tagged s a ≡ (insert s a >>= λ r. ok (r.0, tag r.1 r.0))
  pub room-tag : (s : Slab) (i : ℕ) → room (tag s i) ≡ room s
  pub room-untag : (s : Slab) (i : ℕ) → room (untag s i) ≡ room s
  pub get-tag : (s : Slab) (j i : ℕ) → get (tag s j) i ≡ get s i
  pub get-untag : (s : Slab) (j i : ℕ) → get (untag s j) i ≡ get s i
  pub tagged-add :
      (s : Slab) (a : A) (i : ℕ)
      → 0 < room s
      → tagged (add s a) i ≡ (if next s == i then false else tagged s i)
  pub tagged-set : (s : Slab) (j : ℕ) (a : A) (i : ℕ) → tagged (set s j a) i ≡ tagged s i
  pub tagged-remove :
      (s : Slab) (j i : ℕ) → tagged (remove s j) i ≡ (if j == i then false else tagged s i)
  pub tagged-tag : (s : Slab) (j i : ℕ) → tagged (tag s j) i ≡ (if j == i then true else tagged s i)
  pub tagged-untag :
      (s : Slab) (j i : ℕ) → tagged (untag s j) i ≡ (if j == i then false else tagged s i)
