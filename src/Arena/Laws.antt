-- ===== src/Arena/Laws.antt =====
-- The arena hands out vacant slots, keeps what the occupied ones hold, and counts them.
use radixox.Common.{
  ℕ, zero, suc, ◌+◌, ◌<◌, ◌≡◌, ◌≢◌, refl, sym, ap, ◌∙◌, subst, List, [], ◌∷◌, ◌++◌, Option, none,
  some, ok, no_index, arith, length, length-append, length-set, get_elem?, get_elem?-set_self,
  get_elem?-set_ne, get_elem?-lt, get_elem?-some, get_elem?-append_ne, get_elem?-append_self,
  get_elem?-length, set, Returns, Option-cases, inl, inr,
}
use radixox.Overflow.{Overflow, Huge, default, drop_huge}
use radixox.FreeList.{Chain, NotIn, Once, Chain-frame, NotIn-used}
use radixox.Arena.{Arena, OverflowSlot, item, next_free, new, alloc, reuse, grow, free, vacate, get}

abbrev pub next_of : List OverflowSlot → ℕ → Option ℕ
next_of slots i = elim (get_elem? slots i) [
  | none ↦ none
  | some x ↦ elim x [ item o ↦ none | next_free n ↦ some n ]
]

-- What the slot `i` holds.
abbrev pub held : Arena → ℕ → Option Overflow
held a i = elim (get_elem? a.slots i) [
  | none ↦ none
  | some x ↦ elim x [ item o ↦ some o | next_free n ↦ none ]
]

abbrev pub items : List OverflowSlot → ℕ
items [] = 0
items (item o ∷ slots) = suc (items slots)
items (next_free n ∷ slots) = items slots

-- The free list runs through `vacant`, without repetition; the count is that of the occupied slots;
-- every index fits 32 bits and is not `u32::MAX`.
pub record IsValid (vacant : List ℕ) (a : Arena) : Type 0 where
  pub chain : Chain (next_of a.slots) a.free_head vacant
  pub once : Once vacant
  pub small : length a.slots < suc no_index
  pub counted : a.count ≡ items a.slots

pub new-IsValid : IsValid [] new
new-IsValid = record { chain = refl; once = tt; small = omega arith; counted = refl }

-- `b` holds `o` in the slot `i`, and what `a` holds in every other.
pub record Stores (a : Arena) (i : ℕ) (o : Option Overflow) (b : Arena) : Type 0 where
  pub here : held b i ≡ o
  pub elsewhere : (j : ℕ) → i ≢ j → held b j ≡ held a j

-- The slots inside the vector can be read.
pub get-held : (a : Arena) (i : ℕ) → i < length a.slots → get a i ≡ ok (held a i)
unfolding get
get-held a i h = let (x, e) = get_elem?-some a.slots i h in ground (arith, e)

items-append :
    (slots : List OverflowSlot) (o : Overflow) → items (slots ++ item o ∷ []) ≡ suc (items slots)
items-append [] o = refl
items-append (item p ∷ slots) o = ap suc (items-append slots o)
items-append (next_free n ∷ slots) o = items-append slots o

items-occupy :
    (slots : List OverflowSlot) (i n : ℕ) (o : Overflow)
    → get_elem? slots i ≡ some (next_free n)
    → items (set slots i (item o)) ≡ suc (items slots)
items-occupy [] i n o h = cc
items-occupy (item p ∷ slots) zero n o h = cc
items-occupy (next_free m ∷ slots) zero n o h = refl
items-occupy (item p ∷ slots) (suc i) n o h = ap suc (items-occupy slots i n o h)
items-occupy (next_free m ∷ slots) (suc i) n o h = items-occupy slots i n o h

items-vacate :
    (slots : List OverflowSlot) (i n : ℕ) (o : Overflow)
    → get_elem? slots i ≡ some (item o)
    → suc (items (set slots i (next_free n))) ≡ items slots
items-vacate [] i n o h = cc
items-vacate (item p ∷ slots) zero n o h = refl
items-vacate (next_free m ∷ slots) zero n o h = cc
items-vacate (item p ∷ slots) (suc i) n o h = ap suc (items-vacate slots i n o h)
items-vacate (next_free m ∷ slots) (suc i) n o h = items-vacate slots i n o h

pub items-put :
    (slots : List OverflowSlot) (i : ℕ) (o p : Overflow)
    → get_elem? slots i ≡ some (item o)
    → items (set slots i (item p)) ≡ items slots
items-put [] i o p h = cc
items-put (item x ∷ slots) zero o p h = refl
items-put (next_free m ∷ slots) zero o p h = cc
items-put (item x ∷ slots) (suc i) o p h = ap suc (items-put slots i o p h)
items-put (next_free m ∷ slots) (suc i) o p h = items-put slots i o p h

items-le-length : (slots : List OverflowSlot) → items slots < suc (length slots)
items-le-length [] = omega arith
items-le-length (item o ∷ slots) = omega (arith, items-le-length slots)
items-le-length (next_free n ∷ slots) = omega (arith, items-le-length slots)

next_of-free :
    (slots : List OverflowSlot) (i n : ℕ)
    → next_of slots i ≡ some n
    → get_elem? slots i ≡ some (next_free n)
next_of-free slots i n h = ground arith

pub held-item :
    (a : Arena) (i : ℕ) (o : Overflow) → held a i ≡ some o → get_elem? a.slots i ≡ some (item o)
held-item a i o h = ground arith

-- The slot that `alloc` gives out was vacant; it holds an empty table now, and the others are as
-- they were. (There is a vacant slot, or the vector can grow.)
pub record Allocs (a : Arena) (vacant : List ℕ) (r : ℕ × Arena) : Type 0 where
  pub was_vacant : held a r.0 ≡ none
  pub ne_no_index : r.0 ≢ no_index
  pub stores : Stores a r.0 (some default) r.1
  pub rest : List ℕ
  pub valid : IsValid rest r.1

-- A valid arena of fewer than `u32::MAX` slots hands out a slot that was vacant and is not
-- `u32::MAX`: the slot then holds an empty table, every other slot what it did, and the arena is
-- valid.
pub alloc-Allocs :
    (vacant : List ℕ) (a : Arena)
    → IsValid vacant a
    → length a.slots < no_index
    → Returns (alloc a) (Allocs a vacant)
unfolding alloc reuse grow
alloc-Allocs [] a v room = (
  (length a.slots, record a { slots = a.slots ++ item default ∷ []; count = a.count + 1 }),
  ground arith,
  record {
    was_vacant = ground (arith, get_elem?-length a.slots);
    ne_no_index = omega arith;
    stores = record {
      here = ground (arith, get_elem?-append_self a.slots (item default));
      elsewhere = λ j other. ground (arith, get_elem?-append_ne a.slots (item default) j other);
    };
    rest = [];
    valid = record {
      chain = v.chain;
      once = tt;
      small = omega (arith, length-append a.slots (item default ∷ []));
      counted = omega (arith, items-append a.slots default, v.counted);
    };
  },
)
alloc-Allocs (i ∷ vacant) a v room = go v.chain.2
  where
    slots' : List OverflowSlot
    slots' = set a.slots i (item default)

    go :
        (n : ℕ) × (next_of a.slots i ≡ some n) × Chain (next_of a.slots) n vacant
        → Returns (alloc a) (Allocs a (i ∷ vacant))
    go (n, at, c) =
        let here = next_of-free a.slots i n at in
        let small = get_elem?-lt a.slots i (next_free n) here in
        let written = get_elem?-set_self a.slots i (item default) small in
        let frame = λ (j : ℕ) (other : i ≢ j). get_elem?-set_ne a.slots i j (item default) other in
        (
          (i, record { slots = slots'; free_head = n; count = a.count + 1 }),
          ground (arith, v.chain.0, v.chain.1, here),
          record {
            was_vacant = ground (arith, here);
            ne_no_index = v.chain.1;
            stores = record {
              here = ground (arith, written);
              elsewhere = λ j other. ground (arith, frame j other);
            };
            rest = vacant;
            valid = record {
              chain =
                  Chain-frame (next_of a.slots) (next_of slots') i n vacant
                    (λ j other. ground (arith, frame j other)) v.once.0 c;
              once = v.once.1;
              small = omega (arith, length-set a.slots i (item default), v.small);
              counted = omega (arith, items-occupy a.slots i n default here, v.counted);
            };
          },
        )

-- From `s` to `s'` the huge table of `o` has been given back, if there is one; the others are as they
-- were.
pub record Drops (huge : Huge) (s : huge.Slab) (o : Overflow) (s' : huge.Slab) : Type 0 where
  pub given_back : (h : ℕ) → o.big_overflow_idx ≡ some h → huge.slab.get s' h ≡ none
  pub others : (k : ℕ) → o.big_overflow_idx ≢ some k → huge.slab.get s' k ≡ huge.slab.get s k

drop_huge-Drops :
    (huge : Huge) (s : huge.Slab) (o : Overflow) → Drops huge s o (drop_huge huge s o).0
unfolding drop_huge
drop_huge-Drops huge s o = elim (Option-cases o.big_overflow_idx) [
  | inl off ↦ record { given_back = λ h on. cc; others = λ k apart. rw off refl }
  | inr (i, on) ↦ record {
    given_back = λ h same.
        let here : i ≡ h = cc in rw on (huge.slab.get-remove s i h ∙ ground (arith, here));
    others = λ k apart.
        let other : i ≢ k = λ e. apart (on ∙ ap some e) in
        rw on (huge.slab.get-remove s i k ∙ ground (arith, other));
  }
]

-- `free` gives back an occupied slot, and with it the huge part of its table; the other slots are as
-- they were, and the slot is the next that `alloc` gives out.
pub free_lem :
    (huge : Huge) (s : huge.Slab) (vacant : List ℕ) (a : Arena) (i : ℕ) (o : Overflow)
    → IsValid vacant a
    → held a i ≡ some o
    → Returns
        (free huge s a i)
        (λ r. (r.0 ≡ (drop_huge huge s o).0) × Stores a i none r.1 × IsValid (i ∷ vacant) r.1)
unfolding free
free_lem huge s vacant a i o v h = (
  ((drop_huge huge s o).0, vacate a i),
  ground (arith, here),
  (
    refl,
    record { here = ground (arith, written); elsewhere = λ j other. ground (arith, frame j other) },
    record {
      chain = (
        refl,
        omega (arith, small, v.small),
        (
          a.free_head,
          ground (arith, written),
          Chain-frame (next_of a.slots) (next_of slots') i a.free_head vacant
              (λ j other. ground (arith, frame j other)) unused v.chain,
        ),
      );
      once = (unused, v.once);
      small = omega (arith, length-set a.slots i (next_free a.free_head), v.small);
      counted = omega (
        arith,
        items-vacate a.slots i a.free_head o here,
        items-le-length a.slots,
        v.counted,
        v.small,
      );
    },
  ),
)
  where
    slots' : List OverflowSlot
    slots' = set a.slots i (next_free a.free_head)

    here : get_elem? a.slots i ≡ some (item o)
    here = held-item a i o h

    small : i < length a.slots
    small = get_elem?-lt a.slots i (item o) here

    written : get_elem? slots' i ≡ some (next_free a.free_head)
    written = get_elem?-set_self a.slots i (next_free a.free_head) small

    frame : (j : ℕ) → i ≢ j → get_elem? slots' j ≡ get_elem? a.slots j
    frame j other = get_elem?-set_ne a.slots i j (next_free a.free_head) other

    unused : NotIn i vacant
    unused =
        NotIn-used (next_of a.slots) i a.free_head vacant (λ n e. ground (arith, here, e)) v.chain

-- In a valid arena, freeing an occupied slot does not panic: its huge table, if it has one, is taken
-- out of the slab, and every other huge table stays; the slot holds nothing, every other slot holds
-- what it did, and the arena is valid, with the slot first among the vacant ones.
pub free-Frees :
    (huge : Huge) (s : huge.Slab) (vacant : List ℕ) (a : Arena) (i : ℕ) (o : Overflow)
    → IsValid vacant a
    → held a i ≡ some o
    → Returns
        (free huge s a i)
        (λ r. Drops huge s o r.0 × Stores a i none r.1 × IsValid (i ∷ vacant) r.1)
free-Frees huge s vacant a i o v h =
    let (r, run, (slab, stores, valid)) = free_lem huge s vacant a i o v h in
    (r, run, (subst (Drops huge s o) (sym slab) (drop_huge-Drops huge s o), stores, valid))
