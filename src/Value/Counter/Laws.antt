-- ===== src/Value/Counter/Laws.antt =====
-- What the counters do to a key that leads to a value.
use radixox.Common.{
  ℕ, zero, suc, ◌^◌, ◌<◌, ◌≡◌, ◌≢◌, refl, ap, ◌∙◌, ◌⊎◌, inl, inr, true, if◌then◌else◌, Bool-cases,
  List, some, Run, ok, arith, ℤ, pos, negsuc, neg, ◌+ℤ◌, in_i64, wrapping_neg,
}
use radixox.Node.{Node, get_value}
use radixox.Tree.{Crates, Tree, try_get_node, put_node, traverse_to_key}
use radixox.Value.{Value, IntError, overflow, int, to_int}
use radixox.Value.Laws.{incr-counted}
use radixox.Value.Counter.{incrby, decrby, count_in, store}

-- Subtracting an integer and adding it again.
add-neg : (a d : ℤ) → (a +ℤ neg d) +ℤ d ≡ a
unfolding ◌+ℤ◌ neg
add-neg (pos n) (pos k) = ground arith
add-neg (pos n) (negsuc k) = ground arith
add-neg (negsuc n) (pos k) = ground arith
add-neg (negsuc n) (negsuc k) = ground arith

-- Only the least integer of 64 bits has no opposite.
wrapping_neg-neg :
    (d : ℤ) → in_i64 d ≡ true → d ≢ negsuc 9223372036854775807 → wrapping_neg d ≡ neg d
unfolding wrapping_neg neg
wrapping_neg-neg (pos zero) h ne = refl
wrapping_neg-neg (pos (suc n)) h ne = ground (arith, h)
wrapping_neg-neg (negsuc n) h ne =
    let other : n ≢ 9223372036854775807 = λ e. ne (ap negsuc e) in
    let small : suc n < 2 ^ 63 = ground (arith, h, other) in ground (arith, small)

module _ {Z : Type 0} {m : Crates (Value Z)} where
  -- The key leads to a node whose value, at this time, reads as the integer.
  pub record Holds (t : Tree m) (key : List ℕ) (idx : ℕ) (node : Node (Value Z)) (a : ℤ)
      : Type 0 where
    pub found : traverse_to_key t key ≡ ok (some idx)
    pub there : try_get_node t idx ≡ some node
    pub held : Value Z
    pub alive : get_value node t.now ≡ some held
    pub reads : to_int held ≡ inr a

  -- The reply `n`, which the node then has as its value, if it has 64 bits, and else an error.
  abbrev pub replied : Tree m → ℕ → Node (Value Z) → ℤ → Run ((IntError ⊎ ℤ) × Tree m)
  replied t idx node n =
      if in_i64 n
      then ok (inr n, put_node t idx (record node { val = some (int n) }))
      else ok (inl overflow, t)

  -- Where a key holds an integer, `incrby` replies with the sum, and stores it as an integer beside
  -- the key's time; if the sum has more than 64 bits, the reply is an error and nothing changes.
  pub incrby-replied :
      (t : Tree m) (key : List ℕ) (delta : ℤ) (idx : ℕ) (node : Node (Value Z)) (a : ℤ)
      → Holds t key idx node a
      → incrby t key delta ≡ replied t idx node (a +ℤ delta)
  unfolding incrby
  incrby-replied t key delta idx node a h =
      let step = incr-counted h.held a delta h.reads in
      elim (Bool-cases (in_i64 (a +ℤ delta))) [
        | inl fits ↦
            rw (h.found, h.there)
              (ap (count_in t key delta idx node) h.alive
                ∙ ap (λ r. ok (store t idx node r)) step
                ∙ rw fits refl)
        | inr over ↦
            rw (h.found, h.there)
              (ap (count_in t key delta idx node) h.alive
                ∙ ap (λ r. ok (store t idx node r)) step
                ∙ rw over refl)
      ]

  -- Where a key holds an integer, `decrby` by an integer of 64 bits other than the least one replies
  -- with the difference, and stores it as an integer in the node of the key alone, beside its time, if
  -- the difference has 64 bits. If it has more, the reply is an overflow error and nothing changes.
  pub decrby-replied :
      (t : Tree m) (key : List ℕ) (delta : ℤ) (idx : ℕ) (node : Node (Value Z)) (a : ℤ)
      → Holds t key idx node a
      → in_i64 delta ≡ true
      → delta ≢ negsuc 9223372036854775807
      → (n : ℤ) × (n +ℤ delta ≡ a)
        × (decrby t key delta ≡ (
            if in_i64 n
            then ok (inr n, put_node t idx (record node { val = some (int n) }))
            else ok (inl overflow, t)))
  unfolding decrby
  decrby-replied t key delta idx node a h fits ne = (
    a +ℤ neg delta,
    add-neg a delta,
    ap (incrby t key) (wrapping_neg-neg delta fits ne)
        ∙ incrby-replied t key (neg delta) idx node a h,
  )
