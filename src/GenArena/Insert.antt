-- ===== src/GenArena/Insert.antt =====
-- `insert` gives a new key for its value, in a vacant slot or in a new one.
use radixox.Common.{
  ℕ, ◌+◌, ◌-◌, ◌%◌, ◌^◌, ◌<◌, ◌≡◌, ◌≢◌, refl, sym, ap, ◌∙◌, false, ◌==◌, if◌then◌else◌, ◌⊎◌, inl,
  inr, List, [], ◌∷◌, ◌++◌, none, some, Option-cases, same_or, subst, leb, arith, length,
  length-set, length-append, get_elem?, get_elem?-append_ne, get_elem?-append_self,
  get_elem?-length, set, Returns, no_index,
}
use radixox.FreeList.{Chain, Chain-frame}
use radixox.GenArena.{Key, Slot, GenArena, insert, get, place, grow_to}
use radixox.GenArena.Laws.{next_of, IsValid, get_elem?-set_at}

module _ {A : Type 0} where
  -- `k` is a new key for `x`, and no other key changes its meaning.
  pub record Inserts (a : GenArena A) (x : A) (r : Key × GenArena A) : Type 0 where
    pub vacant : List ℕ
    pub valid : IsValid vacant r.1
    pub was_stale : get a r.0 ≡ none
    pub here : get r.1 r.0 ≡ some x
    pub elsewhere :
        (k : Key) → (k.idx ≢ r.0.idx) ⊎ (k.generation ≢ r.0.generation) → get r.1 k ≡ get a k
    pub counted : r.1.len ≡ a.len + 1

  -- A vacant slot is filled.
  module _ (i : ℕ) (vacant : List ℕ) (a : GenArena A) (x : A) (v : IsValid (i ∷ vacant) a)
      (s : Slot A) (at : get_elem? a.slots i ≡ some s) where
    unfoldable pub filled : GenArena A
    filled = record {
      slots = set a.slots i (record s { data_held = some x });
      free_head = s.next_free;
      len = a.len + 1;
    }

    reads :
        (j : ℕ)
        → get_elem? filled.slots j
          ≡ (if i == j then some (record s { data_held = some x }) else get_elem? a.slots j)
    unfolding filled
    reads j = get_elem?-set_at a.slots i s (record s { data_held = some x }) at j

    was_vacant : s.data_held ≡ none
    was_vacant =
        let (n, next, _) = v.chain.2 in
        elim (Option-cases s.data_held) [
          | inl free ↦ free
          | inr (y, used) ↦ absurd (ground (arith, next, at, used))
        ]

    filled-IsValid : IsValid vacant filled
    unfolding filled
    filled-IsValid =
        let (n, next, c) = v.chain.2 in
        let same : n ≡ s.next_free = ground (arith, next, at, was_vacant) in
        record {
          chain =
              Chain-frame (next_of a.slots) (next_of filled.slots) i s.next_free vacant
                (λ j other. ground (arith, other, reads j)) v.once.0
                (subst (λ z. Chain (next_of a.slots) z vacant) same c);
          once = v.once.1;
          small = omega (arith, length-set a.slots i (record s { data_held = some x }), v.small);
          generations = λ j y e. elim (same_or i j) [
            | inl here ↦ ground (arith, here, reads j, e, v.generations i s at)
            | inr ne ↦ v.generations j y (ground (arith, ne, reads j, e))
          ];
        }

    pub filled-Inserts : Inserts a x (record { idx = i; generation = s.generation }, filled)
    unfolding get filled
    filled-Inserts = record {
      vacant = vacant;
      valid = filled-IsValid;
      was_stale = ground (arith, at, was_vacant);
      here = ground (arith, reads i);
      elsewhere = λ k other. elim (same_or i k.idx) [
        | inl same ↦ ground (arith, same, at, reads k.idx, was_vacant, other)
        | inr ne ↦ ground (arith, ne, reads k.idx)
      ];
      counted = refl;
    }

  place-Inserts :
      (i : ℕ) (vacant : List ℕ) (a : GenArena A) (x : A)
      → IsValid (i ∷ vacant) a
      → Returns (place a x) (Inserts a x)
  place-Inserts i vacant a x v =
      let (n, next, _) = v.chain.2 in
      elim (Option-cases (get_elem? a.slots i)) [
        | inl off ↦ absurd (ground (arith, next, off))
        | inr (s, at) ↦ (
          (record { idx = i; generation = s.generation }, filled i vacant a x v s at),
          unfold filled in rw (v.chain.0, at) refl,
          filled-Inserts i vacant a x v s at,
        )
      ]

  if_same : (h k : ℕ) (a b : GenArena A) → h ≡ k → (if h == k then a else b) ≡ a
  if_same h k a b e = ground (arith, e)

  pub if_other : (h k : ℕ) (a b : GenArena A) → h ≢ k → (if h == k then a else b) ≡ b
  if_other h k a b e = ground (arith, e)

  -- One more slot, which is vacant.
  module _ (a : GenArena A) (v : IsValid [] a) (room : length a.slots < no_index) where
    spare : Slot A
    spare = record { data_held = none; generation = 0; next_free = no_index }

    grown : GenArena A
    unfolding spare
    grown = record a { slots = a.slots ++ spare ∷ []; free_head = length a.slots }

    grow_to-grown : grow_to a (length a.slots + 1) ≡ grown
    unfolding grown spare
    grow_to-grown =
        let more : length a.slots + 1 - length a.slots ≡ 1 = omega arith in
        let fits : length a.slots % 2 ^ 32 ≡ length a.slots = omega arith in
        let larger : leb (length a.slots + 1) (length a.slots) ≡ false = ground arith in
        rw (larger, more, fits, v.chain) refl

    reads_grown :
        (j : ℕ)
        → get_elem? grown.slots j
          ≡ (if length a.slots == j then some spare else get_elem? a.slots j)
    unfolding grown
    reads_grown j = elim (same_or (length a.slots) j) [
      | inl same ↦ ground (arith, same, get_elem?-append_self a.slots spare)
      | inr ne ↦ ground (arith, ne, get_elem?-append_ne a.slots spare j ne)
    ]

    grown-IsValid : IsValid (length a.slots ∷ []) grown
    unfolding grown spare
    grown-IsValid = record {
      chain = (refl, omega arith, (no_index, ground (arith, reads_grown (length a.slots)), refl));
      once = (tt, tt);
      small = omega (arith, length-append a.slots (spare ∷ []));
      generations = λ j y e. elim (same_or (length a.slots) j) [
        | inl same ↦ ground (arith, same, reads_grown j, e)
        | inr ne ↦ v.generations j y (ground (arith, ne, reads_grown j, e))
      ];
    }

    get-grown : (k : Key) → get grown k ≡ get a k
    unfolding get spare
    get-grown k = elim (same_or (length a.slots) k.idx) [
      | inl same ↦ ground (arith, same, reads_grown k.idx, get_elem?-length a.slots)
      | inr ne ↦ ground (arith, ne, reads_grown k.idx)
    ]

    grow_and_place : (x : A) → Returns (insert a x) (Inserts a x)
    unfolding insert
    grow_and_place x =
        let (r, run, w) = place-Inserts (length a.slots) [] grown x grown-IsValid in
        (
          r,
          ap (λ z. place z x)
                (if_same a.free_head no_index (grow_to a (length a.slots + 1)) a v.chain
                  ∙ grow_to-grown)
              ∙ run,
          record {
            vacant = w.vacant;
            valid = w.valid;
            was_stale = sym (get-grown r.0) ∙ w.was_stale;
            here = w.here;
            elsewhere = λ k other. w.elsewhere k other ∙ get-grown k;
            counted = unfold grown in w.counted;
          },
        )

  -- In a valid arena of fewer than `u32::MAX` slots `insert` does not panic: the arena stays valid and
  -- counts one value more, the new key was stale before and now gives the value, and every other key
  -- gives what it gave.
  pub insert-Inserts :
      (vacant : List ℕ) (a : GenArena A) (x : A)
      → IsValid vacant a
      → length a.slots < no_index
      → Returns (insert a x) (Inserts a x)
  unfolding insert
  insert-Inserts [] a x v room = grow_and_place a v room x
  insert-Inserts (i ∷ vacant) a x v room =
      let (r, run, w) = place-Inserts i vacant a x v in
      (
        r,
        ap (λ z. place z x)
              (if_other a.free_head no_index (grow_to a (length a.slots + 1)) a
                (ground (arith, v.chain.0, v.chain.1)))
            ∙ run,
        w,
      )
