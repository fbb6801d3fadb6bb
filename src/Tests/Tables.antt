-- ===== src/Tests/Tables.antt =====
-- The laws of the tables, the packed word and the strings, applied to concrete data.
use radixox.Common.{
  ℕ, ◌%◌, get_elem?, zero, suc, ◌+◌, ◌^◌, ◌<◌, ◌≡◌, refl, List, [], ◌∷◌, ◌++◌, none, some, inl, inr,
  arith, sym, subst, ◌∙◌, ◌*◌, Returns, length, replicate, no_index,
}
use radixox.Childs.{Childs}
use radixox.Childs
use radixox.Childs.Laws.{Removes, find-push, find-remove}
use radixox.Overflow.{Overflow, default}
use radixox.Overflow
use radixox.Overflow.Laws.{Writes}
use radixox.Overflow.Push.{push-Writes}
use radixox.Overflow.Remove.{remove-Removes}
use radixox.Arena.{Arena, alloc, free}
use radixox.Arena
use radixox.Arena.Laws.{held, Stores, Drops, Allocs, alloc-Allocs, free-Frees, new-IsValid}
use radixox.Arena.Store.{StoreIsValid}
use radixox.Expiry.{set_exp, parent_radix}
use radixox.Expiry.Laws.{Packs, time, set_exp-Packs}
use radixox.CompactStr.{deref, from_slice, append_and_replace}
use radixox.CompactStr.Laws.{deref-append_and_replace}
use radixox.GenArena
use radixox.GenArena.{GenArena, Key, Slot}
use radixox.GenArena.Remove.{insert-remove}
use radixox.Tests.Concrete.{huge}

-- The children 5 and 7, under the radixes 97 and 98.
abbrev two_childs : Childs
two_childs = record {
  idxs = 5 ∷ 7 ∷ 0 ∷ 0 ∷ 0 ∷ 0 ∷ [];
  radixs = 97 ∷ 98 ∷ 0 ∷ 0 ∷ 0 ∷ 0 ∷ [];
  len = 2;
}

two_childs-IsValid : Childs.Laws.IsValid two_childs
unfolding Childs.iter
two_childs-IsValid = record {
  idxs_size = refl;
  radixs_size = refl;
  within = omega arith;
  distinct = (refl, (refl, tt));
}

no_99 : Childs.find two_childs 99 ≡ none
unfolding Childs.find
no_99 = refl

-- A table with the child 5 under 97.
abbrev one : Overflow
one = record {
  idxs = 5 ∷ replicate 9 no_index;
  radixs = 97 ∷ replicate 9 0;
  len = 1;
  big_overflow_idx = none;
}

one-IsValid : Overflow.Laws.IsValid huge huge.slab.empty one
unfolding Overflow.big_iter
one-IsValid = record {
  idxs_size = refl;
  radixs_size = refl;
  within = omega arith;
  live = tt;
  light_distinct = (refl, tt);
  big_distinct = tt;
  apart = λ q. inr refl;
}

no_98 : Overflow.find huge huge.slab.empty one 98 ≡ none
unfolding Overflow.find Overflow.big_find
no_98 = refl

push-Writes_example :
    Returns
      (Overflow.push huge huge.slab.empty one 98 6)
      (Writes huge huge.slab.empty one 98 (some 6))
push-Writes_example =
    push-Writes huge huge.slab.empty one one-IsValid 98 6 no_98 (inl (omega arith))

remove-Removes_example :
    Overflow.Remove.Removes huge huge.slab.empty one 97
      (Overflow.remove huge huge.slab.empty one 97)
remove-Removes_example = remove-Removes huge huge.slab.empty one one-IsValid 97

-- An arena that holds `one` in the slot 0, and whose slot 1 is free.
abbrev arena : Arena
arena = record { slots = Arena.item one ∷ Arena.next_free no_index ∷ []; free_head = 1; count = 1 }

arena-IsValid : Arena.Laws.IsValid (1 ∷ []) arena
arena-IsValid = record {
  chain = (refl, omega arith, (no_index, refl, refl));
  once = (tt, tt);
  small = omega arith;
  counted = refl;
}

-- The slab of one huge table, and an arena whose slot 0 has it.
abbrev one_huge : huge.slab.Slab
one_huge = huge.slab.add huge.slab.empty huge.empty

abbrev big : Overflow
big = record one { big_overflow_idx = some (huge.slab.next huge.slab.empty) }

abbrev big_arena : Arena
big_arena = record arena { slots = Arena.item big ∷ Arena.next_free no_index ∷ [] }

big_arena-IsValid : Arena.Laws.IsValid (1 ∷ []) big_arena
big_arena-IsValid = record {
  chain = (refl, omega arith, (no_index, refl, refl));
  once = (tt, tt);
  small = omega arith;
  counted = refl;
}

free-Frees_example : Returns (free huge one_huge big_arena 0) (λ r.
    Drops huge one_huge big r.0 × Stores big_arena 0 none r.1 × Arena.Laws.IsValid (0 ∷ 1 ∷ []) r.1)
free-Frees_example = free-Frees huge one_huge (1 ∷ []) big_arena 0 big big_arena-IsValid refl

only_0 : (i : ℕ) (o : Overflow) → held arena i ≡ some o → (i ≡ 0) × (o ≡ one)
only_0 zero o e = ground (arith, e)
only_0 (suc zero) o e = cc
only_0 (suc (suc i)) o e = cc

arena-StoreIsValid : StoreIsValid huge (1 ∷ []) arena huge.slab.empty
arena-StoreIsValid = record {
  arena = arena-IsValid;
  tables = λ i o e.
      subst (Overflow.Laws.IsValid huge huge.slab.empty) (sym (only_0 i o e).1) one-IsValid;
  huge_owner = λ i j h o p eo ep _ _. (only_0 i o eo).0 ∙ sym (only_0 j p ep).0;
}

set_exp-Packs_example :
    Returns (set_exp (97 * 2 ^ 56 + 5) 77) (Packs (time 77) (parent_radix (97 * 2 ^ 56 + 5)))
set_exp-Packs_example = set_exp-Packs (97 * 2 ^ 56 + 5) 77 (omega arith) (omega arith)

-- Eight bytes, one too many for the short form.
abbrev eight_bytes : List ℕ
eight_bytes = replicate 8 98

string_is_short : length (deref (from_slice (97 ∷ []))) + 1 + length eight_bytes < 2 ^ 32
unfolding deref from_slice
string_is_short = omega arith

deref-append_and_replace_example :
    deref (append_and_replace (from_slice (97 ∷ [])) 99 eight_bytes)
    ≡ deref (from_slice (97 ∷ [])) ++ 99 ∷ eight_bytes
deref-append_and_replace_example =
    deref-append_and_replace (from_slice (97 ∷ [])) 99 eight_bytes string_is_short

-- Two slots: the first holds 5 in its generation 3, the second is vacant.
abbrev two_slots : GenArena ℕ
two_slots = record {
  slots =
      record { data_held = some 5; generation = 3; next_free = 0 }
      ∷ record { data_held = none; generation = 7; next_free = no_index }
      ∷ [];
  free_head = 1;
  len = 1;
}

two_slots-IsValid : GenArena.Laws.IsValid (1 ∷ []) two_slots
two_slots-IsValid = record {
  chain = (refl, omega arith, (no_index, refl, refl));
  once = (tt, tt);
  small = omega arith;
  generations = in_range;
}
  where
    in_range : (i : ℕ) (s : Slot ℕ) → get_elem? two_slots.slots i ≡ some s → s.generation < 2 ^ 32
    in_range zero s e = ground (arith, e)
    in_range (suc zero) s e = ground (arith, e)
    in_range (suc (suc i)) s e = cc

abbrev key_of_5 : Key
key_of_5 = record { idx = 0; generation = 3 }

gives_5 : GenArena.get two_slots key_of_5 ≡ some 5
unfolding GenArena.get
gives_5 = refl

insert-remove_example : Returns (GenArena.insert (GenArena.remove two_slots key_of_5).1 9) (λ r.
    (r.0.idx ≡ 0)
    × (r.0.generation ≡ (3 + 1) % 2 ^ 32)
    × (GenArena.get r.1 key_of_5 ≡ none)
    × (GenArena.get r.1 r.0 ≡ some 9))
insert-remove_example = insert-remove (1 ∷ []) two_slots two_slots-IsValid key_of_5 5 9 gives_5
