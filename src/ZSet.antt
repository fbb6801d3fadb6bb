-- ===== src/ZSet.antt =====
-- `InnerZCommand` of oxidart/src/zcommand.rs and `ZSetInner` of oxidart/src/zset_inner.rs: a sorted
-- set, as a sorted vector while it is small, and then as a `BTreeSet` with a `HashMap` beside it.
pub mod Entries
pub mod Laws
pub mod Large
pub mod Insert
pub mod Remove
use radixox.Common.{
  ℕ, zero, suc, Bool, true, false, not, ◌==◌, leb, if◌then◌else◌, List, [], ◌∷◌, Option, none, some,
  same_bytes, length,
}
use radixox.BTree
use radixox.Hash.Entries.{find, put, erase}
use radixox.ZSet.Entries.{Floats, Entry, entry_order, score_in, locate, remove_at}

-- `THRESHOLD`
abbrev pub threshold : ℕ
threshold = 16

pub record ZSetInner (F : Type 0) : Type 0 where
  pub sorted : List (Entry F)
  pub scores : List (List ℕ × F)

pub data ZSet (F : Type 0) : Type 0 where
  small : List (Entry F) → ZSet F
  large : ZSetInner F → ZSet F

abbrev pub is_none {ℓ} : {A : Type ℓ} → Option A → Bool
is_none none = true
is_none (some a) = false

abbrev pub is_some {ℓ} : {A : Type ℓ} → Option A → Bool
is_some none = false
is_some (some a) = true

abbrev pub in_large : {F : Type 0} → Bool × ZSetInner F → Bool × ZSet F
in_large r = (r.0, large r.1)

abbrev pub new : {F : Type 0} → ZSet F
new = small []

module _ {F : Type 0} (fl : Floats F) where
  -- `OrderedFloat`'s `==`
  abbrev pub same_score : F → F → Bool
  same_score a b = fl.rank a == fl.rank b

  -- The lines of `ZSetInner::insert` behind the test of the old score.
  unfoldable pub enter : ZSetInner F → F → List ℕ → Bool × ZSetInner F
  enter z score member = (
    is_none (find member z.scores),
    record {
      sorted = (BTree.insert (entry_order fl) (score, member) z.sorted).1;
      scores = put member score z.scores;
    },
  )

  -- `ZSetInner::insert`, with the old score of the member.
  abbrev pub inner_insert_at : ZSetInner F → F → List ℕ → Option F → Bool × ZSetInner F
  inner_insert_at z score member none = enter z score member
  inner_insert_at z score member (some old) =
      if same_score old score
      then (false, z)
      else enter (record z { sorted = (BTree.remove (entry_order fl) (old, member) z.sorted).1 })
          score member

  unfoldable pub inner_insert : ZSetInner F → F → List ℕ → Bool × ZSetInner F
  inner_insert z score member = inner_insert_at z score member (find member z.scores)

  -- `ZSetInner::remove`, with the score that the map had.
  abbrev pub inner_remove_at : ZSetInner F → List ℕ → Option F → Bool × ZSetInner F
  inner_remove_at z member none = (false, z)
  inner_remove_at z member (some score) = (
    true,
    record {
      sorted = (BTree.remove (entry_order fl) (score, member) z.sorted).1;
      scores = erase member z.scores;
    },
  )

  unfoldable pub inner_remove : ZSetInner F → List ℕ → Bool × ZSetInner F
  inner_remove z member = inner_remove_at z member (find member z.scores)

  -- The loop that drains the vector, and the insertions behind it.
  abbrev pub enter_all : List (Entry F) → ZSetInner F → ZSetInner F
  enter_all [] z = z
  enter_all (e ∷ es) z = enter_all es (enter z e.0 e.1).1

  -- The vector is full: its entries and the new one go into the double index.
  unfoldable pub promote : List (Entry F) → F → List ℕ → ZSetInner F
  unfolding enter
  promote vec score member =
      (enter (enter_all vec (record { sorted = []; scores = [] })) score member).1

  -- The vector's part of `InnerZCommand::insert`, with where the member is.
  abbrev pub small_insert_at : F → List ℕ → List (Entry F) → Option (ℕ × F) → Bool × ZSet F
  small_insert_at score member vec (some (pos, old)) =
      if same_score old score
      then (false, small vec)
      else (false, small (BTree.place (entry_order fl) (score, member) (remove_at pos vec)))
  small_insert_at score member vec none =
      if leb threshold (length vec)
      then (true, large (promote vec score member))
      else (true, small (BTree.place (entry_order fl) (score, member) vec))

  unfoldable pub insert : F → List ℕ → ZSet F → Bool × ZSet F
  insert score member (small vec) = small_insert_at score member vec (locate member vec)
  insert score member (large zset) = in_large (inner_insert zset score member)

  abbrev pub small_remove_at : List (Entry F) → Option (ℕ × F) → Bool × ZSet F
  small_remove_at vec none = (false, small vec)
  small_remove_at vec (some (pos, old)) = (true, small (remove_at pos vec))

  unfoldable pub remove : List ℕ → ZSet F → Bool × ZSet F
  remove member (small vec) = small_remove_at vec (locate member vec)
  remove member (large zset) = in_large (inner_remove zset member)

module _ {F : Type 0} where
  unfoldable pub score : List ℕ → ZSet F → Option F
  score member (small vec) = score_in member vec
  score member (large zset) = find member zset.scores

  unfoldable pub len : ZSet F → ℕ
  len (small vec) = length vec
  len (large zset) = length zset.scores

  unfoldable pub is_empty : ZSet F → Bool
  unfolding len
  is_empty z = len z == 0

  -- The entries in the order of the iterator.
  unfoldable pub iter : ZSet F → List (Entry F)
  iter (small vec) = vec
  iter (large zset) = zset.sorted
