-- ===== src/Value/SetCommands/Laws.antt =====
-- What SADD, SREM and SPOP do to a set.
use radixox.Common.{
  ℕ, ◌+◌, ◌≡◌, refl, sym, ap, ◌∙◌, subst, Bool, true, false, not, ◌&&◌, ◌||◌, if◌then◌else◌,
  Bool-cases, inl, inr, List, [], ◌∷◌, Option, ok, length, arith,
}
use radixox.Node.{Node}
use radixox.Tree.{Crates, Tree}
use radixox.BTree
use radixox.BTree.{same, contains, place, insert, erase}
use radixox.BTree.Bytes.{bytes_order, same-eq}
use radixox.BTree.Laws.{
  IsSorted, place-IsSorted, erase-IsSorted, length-place, contains-place, contains-erase,
}
use radixox.Value.{Value, as_set}
use radixox.Value.{set as set_value}
use radixox.Value.Borrowed.{get_btree_set_mut}
use radixox.Value.Borrowed.Laws.{Held, holding, get_or_new-Held}
use radixox.Value.SetCommands.{add_all, remove_all, cmd_sadd}

abbrev pub Sorted : List (List ℕ) → Type 0
Sorted s = IsSorted bytes_order s

abbrev pub has : List ℕ → List (List ℕ) → Bool
has q s = contains bytes_order q s

-- What is among the elements of a list, in any order.
abbrev pub listed : List ℕ → List (List ℕ) → Bool
listed q [] = false
listed q (x ∷ xs) = same bytes_order q x || listed q xs

pub record Adds (members : List (List ℕ)) (s : List (List ℕ)) (count : ℕ) (s' : List (List ℕ))
    : Type 0 where
  pub sorted : Sorted s'
  pub gains : (q : List ℕ) → has q s' ≡ (listed q members || has q s)
  pub counts : length s' ≡ length s + count

pub record Drops (members : List (List ℕ)) (s : List (List ℕ)) (count : ℕ) (s' : List (List ℕ))
    : Type 0 where
  pub sorted : Sorted s'
  pub loses : (q : List ℕ) → has q s' ≡ (not (listed q members) && has q s)
  pub counts : length s' + count ≡ length s

insert_old : (x : List ℕ) (s : List (List ℕ)) → has x s ≡ true → insert bytes_order x s ≡ (false, s)
unfolding BTree.insert
insert_old x s old = rw old refl

insert_new :
    (x : List ℕ) (s : List (List ℕ))
    → has x s ≡ false
    → insert bytes_order x s ≡ (true, place bytes_order x s)
unfolding BTree.insert
insert_new x s new = rw new refl

add_step :
    (x : List ℕ) (xs : List (List ℕ)) (count : ℕ) (s : List (List ℕ)) (r : Bool × List (List ℕ))
    → insert bytes_order x s ≡ r
    → add_all (x ∷ xs) count s ≡ add_all xs (if r.0 then count + 1 else count) r.1
unfolding add_all
add_step x xs count s r e =
    ap (λ (r : Bool × List (List ℕ)). add_all xs (if r.0 then count + 1 else count) r.1) e

-- A member that is there already adds nothing.
covered :
    (x : List ℕ) (xs s : List (List ℕ)) (q : List ℕ)
    → has x s ≡ true
    → (listed q xs || has q s) ≡ (listed q (x ∷ xs) || has q s)
covered x xs s q old = elim (Bool-cases (same bytes_order q x)) [
  | inl hit ↦
      let there : has q s ≡ true = ap (λ (a : List ℕ). has a s) (same-eq q x hit) ∙ old in
      ground (arith, hit, there)
  | inr miss ↦ rw miss refl
]

-- The loop of SADD: the set has the listed members as well, and the count is what it has grown by.
pub add_all-Adds :
    (members : List (List ℕ)) (count : ℕ) (s : List (List ℕ))
    → Sorted s
    → (added : ℕ) × ((add_all members count s).0 ≡ count + added)
      × Adds members s added (add_all members count s).1
unfolding add_all
add_all-Adds [] count s v =
    (0, omega arith, record { sorted = v; gains = λ q. refl; counts = omega arith })
add_all-Adds (x ∷ xs) count s v = elim (Bool-cases (has x s)) [
  | inl old ↦
      let (added, told, rest) = add_all-Adds xs count s v in
      let step = add_step x xs count s (false, s) (insert_old x s old) in
      (
        added,
        ap (λ (r : ℕ × List (List ℕ)). r.0) step ∙ told,
        subst (λ (r : ℕ × List (List ℕ)). Adds (x ∷ xs) s added r.1) (sym step)
            (record {
              sorted = rest.sorted;
              gains = λ q. rest.gains q ∙ covered x xs s q old;
              counts = rest.counts;
            }),
      )
  | inr new ↦
      let v' = place-IsSorted bytes_order x s v new in
      let step = add_step x xs count s (true, place bytes_order x s) (insert_new x s new) in
      let (added, told, rest) = add_all-Adds xs (count + 1) (place bytes_order x s) v' in
      (
        added + 1,
        ap (λ (r : ℕ × List (List ℕ)). r.0) step ∙ omega (arith, told),
        subst (λ (r : ℕ × List (List ℕ)). Adds (x ∷ xs) s (added + 1) r.1) (sym step)
            (record {
              sorted = rest.sorted;
              gains = λ q. rest.gains q ∙ ground (arith, contains-place bytes_order q x s);
              counts = omega (arith, rest.counts, length-place bytes_order x s);
            }),
      )
]

length-erase :
    (x : List ℕ) (s : List (List ℕ))
    → length (erase bytes_order x s) + (if has x s then 1 else 0) ≡ length s
unfolding erase contains
length-erase x [] = omega arith
length-erase x (y ∷ s) = ground (arith, length-erase x s)

remove_step :
    (x : List ℕ) (xs : List (List ℕ)) (count : ℕ) (s : List (List ℕ))
    → remove_all (x ∷ xs) count s
      ≡ remove_all xs (if has x s then count + 1 else count) (erase bytes_order x s)
unfolding remove_all BTree.remove
remove_step x xs count s = refl

-- The loop of SREM: the set has the other members, and the count is what it has shrunk by.
pub remove_all-Drops :
    (members : List (List ℕ)) (count : ℕ) (s : List (List ℕ))
    → Sorted s
    → (removed : ℕ) × ((remove_all members count s).0 ≡ count + removed)
      × Drops members s removed (remove_all members count s).1
unfolding remove_all
remove_all-Drops [] count s v =
    (0, omega arith, record { sorted = v; loses = λ q. refl; counts = omega arith })
remove_all-Drops (x ∷ xs) count s v =
    let one : ℕ = if has x s then 1 else 0 in
    let v' = erase-IsSorted bytes_order x s v in
    let step = remove_step x xs count s in
    let (removed, told, rest) =
      remove_all-Drops xs (if has x s then count + 1 else count) (erase bytes_order x s) v' in
    (
      one + removed,
      ap (λ (r : ℕ × List (List ℕ)). r.0) step ∙ told ∙ elim (Bool-cases (has x s)) [
        | inl old ↦ rw old (omega arith)
        | inr new ↦ rw new (omega arith)
      ],
      subst (λ (r : ℕ × List (List ℕ)). Drops (x ∷ xs) s (one + removed) r.1) (sym step)
          (record {
            sorted = rest.sorted;
            loses = λ q. rest.loses q ∙ ground (arith, contains-erase bytes_order same-eq q x s v);
            counts = omega (arith, rest.counts, length-erase x s);
          }),
    )

module _ {Z : Type 0} {m : Crates (Value Z)} where
  pub get_btree_set_mut-Held :
      (t : Tree m) (ttl : Option ℕ) (key : List ℕ) (idx : ℕ) (node : Node (Value Z))
      (s : List (List ℕ))
      → Held t key idx node (set_value s)
      → get_btree_set_mut t ttl key ≡ ok (inr (idx, s), t)
  unfolding get_btree_set_mut as_set
  get_btree_set_mut-Held t ttl key idx node s h =
      get_or_new-Held as_set (set_value []) false ttl t key idx node (set_value s) s h refl

  -- Where a key of a well-formed tree holds a set, SADD leaves a sorted set with the listed
  -- members as well, in the node of the key alone, and replies with the number of members by
  -- which it has grown.
  pub cmd_sadd-Adds :
      (t : Tree m) (key : List ℕ) (members : List (List ℕ)) (ttl : Option ℕ) (idx : ℕ)
      (node : Node (Value Z)) (s : List (List ℕ))
      → Held t key idx node (set_value s)
      → Sorted s
      → (s' : List (List ℕ)) × (added : ℕ) × Adds members s added s'
        × (cmd_sadd t key members ttl ≡ ok (inr added, holding t idx node (set_value s')))
  unfolding cmd_sadd
  cmd_sadd-Adds t key members ttl idx node s h v =
      let (added, told, adds) = add_all-Adds members 0 s v in
      let count : (add_all members 0 s).0 ≡ added = omega (arith, told) in
      (
        (add_all members 0 s).1,
        added,
        adds,
        rw (get_btree_set_mut-Held t ttl key idx node s h, h.there, count) refl,
      )
