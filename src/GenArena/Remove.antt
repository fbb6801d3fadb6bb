-- ===== src/GenArena/Remove.antt =====
-- `remove` takes back what a key gives, and the key stays stale when its slot is used again.
use radixox.Common.{
  ℕ, ◌+◌, ◌%◌, ◌^◌, ◌≡◌, ◌≢◌, refl, sym, ap, ◌∙◌, ◌==◌, if◌then◌else◌, ◌⊎◌, inl, inr, List, ◌∷◌,
  Option, none, some, Option-cases, Bool-cases, same_or, subst, arith, length, length-set,
  get_elem?, get_elem?-lt, Returns, no_index,
}
use radixox.FreeList.{Chain-frame, NotIn-used}
use radixox.GenArena.{Key, Slot, GenArena, insert, remove, get, release, place, grow_to}
use radixox.GenArena.Laws.{next_of, IsValid, get_elem?-set_at}
use radixox.GenArena.Insert.{filled, filled-Inserts, if_other}

module _ {A : Type 0} where
  -- The key gives nothing any more, and every other key gives what it gave.
  pub record Drops (a : GenArena A) (k : Key) (r : Option A × GenArena A) : Type 0 where
    pub returns : r.0 ≡ get a k
    pub vacant : List ℕ
    pub valid : IsValid vacant r.1
    pub gone : get r.1 k ≡ none
    pub elsewhere :
        (l : Key) → (l.idx ≢ k.idx) ⊎ (l.generation ≢ k.generation) → get r.1 l ≡ get a l

  module _ (vacant : List ℕ) (a : GenArena A) (v : IsValid vacant a) (k : Key) where
    stale-Drops : get a k ≡ none → Drops a k (none, a)
    stale-Drops off = record {
      returns = sym off;
      vacant = vacant;
      valid = v;
      gone = off;
      elsewhere = λ l _. refl;
    }

    module _ (s : Slot A) (x : A) (at : get_elem? a.slots k.idx ≡ some s)
        (used : s.data_held ≡ some x) (same : s.generation ≡ k.generation) where
      bumped : Slot A
      bumped = record {
        data_held = none;
        generation = (s.generation + 1) % 2 ^ 32;
        next_free = a.free_head;
      }

      reads_released :
          (j : ℕ)
          → get_elem? (release a k.idx s).slots j
            ≡ (if k.idx == j then some bumped else get_elem? a.slots j)
      unfolding bumped
      reads_released j = get_elem?-set_at a.slots k.idx s bumped at j

      released-IsValid : IsValid (k.idx ∷ vacant) (release a k.idx s)
      unfolding bumped
      released-IsValid =
          let outside =
            NotIn-used (next_of a.slots) k.idx a.free_head vacant
              (λ n e. ground (arith, at, used, e)) v.chain in
          let small = get_elem?-lt a.slots k.idx s at in
          record {
            chain = (
              refl,
              omega (arith, small, v.small),
              (
                a.free_head,
                ground (arith, reads_released k.idx),
                Chain-frame (next_of a.slots) (next_of (release a k.idx s).slots) k.idx a.free_head
                    vacant (λ j other. ground (arith, other, reads_released j)) outside v.chain,
              ),
            );
            once = (outside, v.once);
            small = omega (arith, length-set a.slots k.idx bumped, v.small);
            generations = λ j y e. elim (same_or k.idx j) [
              | inl here ↦ ground (arith, here, reads_released j, e)
              | inr ne ↦ v.generations j y (ground (arith, ne, reads_released j, e))
            ];
          }

      released-Drops : Drops a k (s.data_held, release a k.idx s)
      unfolding get bumped
      released-Drops = record {
        returns = ground (arith, at, used, same);
        vacant = k.idx ∷ vacant;
        valid = released-IsValid;
        gone = ground (arith, reads_released k.idx);
        elsewhere = λ l other. elim (same_or k.idx l.idx) [
          | inl here ↦ ground (arith, here, at, used, same, other, reads_released l.idx)
          | inr ne ↦ ground (arith, ne, reads_released l.idx)
        ];
      }

      reused :
          (y : A)
          → Returns (insert (release a k.idx s) y) (λ r.
            (r.0.idx ≡ k.idx)
            × (r.0.generation ≡ (k.generation + 1) % 2 ^ 32)
            × (get r.1 k ≡ none)
            × (get r.1 r.0 ≡ some y))
      unfolding insert bumped
      reused y =
          let b = release a k.idx s in
          let there : get_elem? b.slots k.idx ≡ some bumped =
            ground (arith, reads_released k.idx) in
          let w = filled-Inserts k.idx vacant b y released-IsValid bumped there in
          let small = v.generations k.idx s at in
          (
            (
              record { idx = k.idx; generation = bumped.generation },
              filled k.idx vacant b y released-IsValid bumped there,
            ),
            ap (λ z. place z y)
                  (if_other k.idx no_index (grow_to b (length b.slots + 1)) b
                    (released-IsValid.chain.1))
                ∙ (unfold filled in rw there refl),
            (
              refl,
              ground (arith, same),
              w.elsewhere k (inr (omega (arith, small, same))) ∙ released-Drops.gone,
              w.here,
            ),
          )

    -- In a valid arena `remove` returns what the key gives, if anything; the arena stays valid, the key
    -- gives nothing any more, and every other key gives what it gave.
    pub remove-Drops : Drops a k (remove a k)
    unfolding remove get
    remove-Drops = elim (Option-cases (get_elem? a.slots k.idx)) [
      | inl off ↦ unchanged (ground (arith, off)) (ground (arith, off))
      | inr (s, at) ↦ elim (Option-cases s.data_held) [
        | inl off ↦ unchanged (ground (arith, at, off)) (ground (arith, at, off))
        | inr (x, used) ↦ elim (Bool-cases (s.generation == k.generation)) [
          | inl same ↦
              let kept : remove a k ≡ (s.data_held, release a k.idx s) =
                ground (arith, at, used, same) in
              subst (Drops a k) (sym kept) (released-Drops s x at used (ground (arith, same)))
          | inr other ↦ unchanged (ground (arith, at, other)) (ground (arith, at, other))
        ]
      ]
    ]
      where
        unchanged : remove a k ≡ (none, a) → get a k ≡ none → Drops a k (remove a k)
        unchanged e off = subst (Drops a k) (sym e) (stale-Drops off)

    -- In a valid arena a key that was removed gives nothing when its slot is used again: the next
    -- `insert` does not panic, and returns a key for the same slot with the next generation.
    pub insert-remove :
        (x y : A)
        → get a k ≡ some x
        → Returns (insert (remove a k).1 y) (λ r.
          (r.0.idx ≡ k.idx)
          × (r.0.generation ≡ (k.generation + 1) % 2 ^ 32)
          × (get r.1 k ≡ none)
          × (get r.1 r.0 ≡ some y))
    unfolding remove get
    insert-remove x y given = elim (Option-cases (get_elem? a.slots k.idx)) [
      | inl off ↦ absurd (ground (arith, off, given))
      | inr (s, at) ↦ elim (Option-cases s.data_held) [
        | inl off ↦ absurd (ground (arith, at, off, given))
        | inr (z, used) ↦ elim (Bool-cases (s.generation == k.generation)) [
          | inl same ↦
              let kept : remove a k ≡ (s.data_held, release a k.idx s) =
                ground (arith, at, used, same) in
              rw (ap (λ o. o.1) kept) (reused s z at used (ground (arith, same)) y)
          | inr other ↦ absurd (ground (arith, at, other, given))
        ]
      ]
    ]
