-- ===== src/GenArena.antt =====
-- `GenArena` of radixox-lib/src/gen_arena.rs: an arena whose keys carry the generation of their slot,
-- so that a key is stale once its slot has been emptied.
pub mod Laws
pub mod Insert
pub mod Remove
pub mod Update
use radixox.Common.{
  ℕ, zero, suc, ◌+◌, ◌-◌, ◌%◌, ◌^◌, Bool, true, false, not, ◌&&◌, ◌||◌, leb, ◌==◌, if◌then◌else◌,
  List, [], ◌∷◌, ◌++◌, Option, none, some, Run, ok, panic, expect, ◌>>=◌, no_index, length,
  get_elem?, set,
}

pub record Key : Type 0 where
  pub idx : ℕ
  pub generation : ℕ

-- `==` on keys
abbrev pub same_key : Key → Key → Bool
same_key a b = a.idx == b.idx && a.generation == b.generation

pub record Slot (A : Type 0) : Type 0 where
  pub data_held : Option A
  pub generation : ℕ
  -- only meaningful while the slot holds nothing
  pub next_free : ℕ

pub record GenArena (A : Type 0) : Type 0 where
  pub slots : List (Slot A)
  pub free_head : ℕ
  pub len : ℕ

-- `SENTINEL` is `u32::MAX`.
module _ {A : Type 0} where
  abbrev pub new : GenArena A
  new = record { slots = []; free_head = no_index; len = 0 }

  -- The slots that the loop pushes from its round `i` on, with the number of rounds left. The last
  -- one leads to the list that was there.
  abbrev pub free_slots : ℕ → ℕ → ℕ → ℕ → List (Slot A)
  free_slots start free_head i zero = []
  free_slots start free_head i (suc left) =
      record {
        data_held = none;
        generation = 0;
        next_free = if left == 0 then free_head else (start + i + 1) % 2 ^ 32;
      }
      ∷ free_slots start free_head (suc i) left

  abbrev pub grow_to : GenArena A → ℕ → GenArena A
  grow_to a cap =
      let start = length a.slots in
      if leb cap start then a else record a {
        slots = a.slots ++ free_slots start a.free_head 0 (cap - start);
        free_head = start % 2 ^ 32;
      }

  abbrev pub with_capacity : ℕ → GenArena A
  with_capacity cap = grow_to new cap

  -- The value goes into the slot, which leaves the free list.
  abbrev pub occupy : GenArena A → A → Slot A → Key × GenArena A
  occupy a value slot = (
    record { idx = a.free_head; generation = slot.generation },
    record {
      slots = set a.slots a.free_head (record slot { data_held = some value });
      free_head = slot.next_free;
      len = a.len + 1;
    },
  )

  abbrev pub place : GenArena A → A → Run (Key × GenArena A)
  place a value = do slot ← expect (get_elem? a.slots a.free_head); ok (occupy a value slot)

  unfoldable pub insert : GenArena A → A → Run (Key × GenArena A)
  insert a value =
      place (if a.free_head == no_index then grow_to a (length a.slots + 1) else a) value

  abbrev pub has_data : Slot A → Bool
  has_data s = elim s.data_held [ none ↦ false | some x ↦ true ]

  -- The slot gets the next generation, and leads the free list.
  abbrev pub release : GenArena A → ℕ → Slot A → GenArena A
  release a idx slot = record {
    slots = set a.slots idx (record {
      data_held = none;
      generation = (slot.generation + 1) % 2 ^ 32;
      next_free = a.free_head;
    });
    free_head = idx;
    len = (a.len + 2 ^ 32 - 1) % 2 ^ 32;
  }

  unfoldable pub remove : GenArena A → Key → Option A × GenArena A
  remove a key = elim (get_elem? a.slots key.idx) [
    | none ↦ (none, a)
    | some slot ↦
        if not (slot.generation == key.generation) || not (has_data slot)
        then (none, a)
        else (slot.data_held, release a key.idx slot)
  ]

  abbrev pub slot_at : GenArena A → Key → Option (Slot A)
  slot_at a key = elim (get_elem? a.slots key.idx) [
    | none ↦ none
    | some s ↦ if s.generation == key.generation && has_data s then some s else none
  ]

  unfoldable pub get : GenArena A → Key → Option A
  get a key = elim (slot_at a key) [ none ↦ none | some s ↦ s.data_held ]

  unfoldable pub contains : GenArena A → Key → Bool
  contains a key = elim (slot_at a key) [ none ↦ false | some s ↦ true ]

  unfoldable pub is_empty : GenArena A → Bool
  is_empty a = a.len == 0

  -- `index`
  unfoldable pub at_key : GenArena A → Key → Run A
  unfolding get
  at_key a key = expect (get a key)

  -- What a slot holds after a write through `get_mut`.
  abbrev pub write_slot : (A → A) → Slot A → Slot A
  write_slot f s = record s { data_held = elim s.data_held [ none ↦ none | some x ↦ some (f x) ] }

  -- `get_mut`, and a write through it if there is a value.
  unfoldable pub update : GenArena A → Key → (A → A) → GenArena A
  update a key f = elim (slot_at a key) [
    | none ↦ a
    | some s ↦ record a { slots = set a.slots key.idx (write_slot f s) }
  ]
