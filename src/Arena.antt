-- ===== src/Arena.antt =====
-- `OverflowArena` of oxidart/src/node_childs.rs: the overflow tables of the whole tree in one
-- vector, its vacant slots in a free list.
pub mod Laws
pub mod Store
pub mod First
pub mod Release
use radixox.Common.{
  ℕ, suc, ◌+◌, ◌-◌, ◌%◌, ◌^◌, ◌==◌, if◌then◌else◌, List, [], ◌∷◌, ◌++◌, Option, none, some, Run, ok,
  panic, ◌>>=◌, no_index, length, get_elem?, set,
}
use radixox.Overflow.{Overflow, Huge, default, drop_huge}

pub data OverflowSlot : Type 0 where
  item : Overflow → OverflowSlot
  next_free : ℕ → OverflowSlot

pub record Arena : Type 0 where
  pub slots : List OverflowSlot
  pub free_head : ℕ
  pub count : ℕ

abbrev pub new : Arena
new = record { slots = []; free_head = no_index; count = 0 }

-- A vacant slot is taken off the free list; an occupied one there is `unreachable!`.
reuse : Arena → ℕ → Option OverflowSlot → Run (ℕ × Arena)
reuse a i (some (next_free n)) =
    ok (i, record { slots = set a.slots i (item default); free_head = n; count = a.count + 1 })
reuse a i (some (item o)) = panic
reuse a i none = panic

grow : Arena → ℕ × Arena
grow a = (
  length a.slots % 2 ^ 32,
  record a { slots = a.slots ++ item default ∷ []; count = a.count + 1 },
)

unfoldable pub alloc : Arena → Run (ℕ × Arena)
unfolding reuse grow
alloc a =
    if a.free_head == no_index
    then ok (grow a)
    else reuse a a.free_head (get_elem? a.slots a.free_head)

-- `free_head = idx`; the count is a `usize` that wraps.
abbrev vacate : Arena → ℕ → Arena
vacate a i = record {
  slots = set a.slots i (next_free a.free_head);
  free_head = i;
  count = (a.count + 2 ^ 64 - 1) % 2 ^ 64;
}

free_slot : (huge : Huge) → huge.Slab → Arena → ℕ → Option OverflowSlot → Run (huge.Slab × Arena)
free_slot huge s a i none = panic
free_slot huge s a i (some (item o)) = ok ((drop_huge huge s o).0, vacate a i)
free_slot huge s a i (some (next_free n)) = ok (s, vacate a i)

unfoldable pub free : (huge : Huge) → huge.Slab → Arena → ℕ → Run (huge.Slab × Arena)
unfolding free_slot
free huge s a i = free_slot huge s a i (get_elem? a.slots i)

read : Option OverflowSlot → Run (Option Overflow)
read none = panic
read (some (item o)) = ok (some o)
read (some (next_free n)) = ok none

-- `get` and `get_mut`: an index outside the vector panics.
unfoldable pub get : Arena → ℕ → Run (Option Overflow)
unfolding read
get a i = read (get_elem? a.slots i)

-- A write through the reference that `get_mut` returns.
unfoldable pub put : Arena → ℕ → Overflow → Arena
put a i o = record a { slots = set a.slots i (item o) }
