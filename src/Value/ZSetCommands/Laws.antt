-- ===== src/Value/ZSetCommands/Laws.antt =====
-- What ZADD, ZREM and ZRANGE mean for the scores of a sorted set and for its order.
use radixox.Common.{
  ℕ, suc, ◌+◌, ◌-◌, ◌≤◌, ◌<◌, ◌≡◌, refl, sym, ap, ◌∙◌, min, Bool, true, false, ◌||◌, ◌==◌, ltb,
  if◌then◌else◌, Bool-cases, inl, inr, List, [], ◌∷◌, ◌++◌, Option, none, some, ok, same_bytes,
  same_bytes_eq, pos, negsuc, length, take, drop, take-length, take-append-drop, length-drop, arith,
}
use radixox.Node.{Node}
use radixox.Tree.{Crates, Tree}
use radixox.ZSet
use radixox.ZSet.{ZSet, insert, remove, score, len}
use radixox.ZSet.Entries.{Floats}
use radixox.ZSet.Laws.{IsValid, kept}
use radixox.ZSet.Insert.{insert-Scores}
use radixox.ZSet.Remove.{remove-Scores}
use radixox.Value.{Value, as_zset}
use radixox.Value.{zset as zset_value}
use radixox.Value.Borrowed.Laws.{Held, holding, get_or_new-Held}
use radixox.Value.ZSetCommands.{window, add_all, remove_all, get_zset_mut, cmd_zadd}

module _ {ℓ} {A : Type ℓ} where
  -- Between two indices that are there, the entries from the first to the last.
  window_inside :
      (a b : ℕ) (es : List A)
      → a ≤ b
      → b < length es
      → window (length es) (pos a) (pos b) es ≡ take (b - a + 1) (drop a es)
  unfolding window
  window_inside a b es h k =
      let low : min a (length es) ≡ a = omega arith in
      let high : min b (length es - 1) ≡ b = omega arith in
      let some_ : (length es == 0) ≡ false = ground arith in
      let order : ltb b a ≡ false = ground arith in rw (some_, low, high, order) refl

  window_to_end :
      (a : ℕ) (es : List A) → a < length es → window (length es) (pos a) (negsuc 0) es ≡ drop a es
  unfolding window
  window_to_end a es h =
      let low : min a (length es) ≡ a = omega arith in
      let some_ : (length es == 0) ≡ false = ground arith in
      let order : ltb (length es - 1) a ≡ false = ground arith in
      let rest : length es - 1 - a + 1 ≡ length (drop a es) = omega (arith, length-drop a es) in
      rw (some_, low, order) (ap (λ n. take n (drop a es)) rest ∙ take-length (drop a es))

  -- The entries up to an index, and those from the next one to the end, are all entries in their
  -- order.
  pub window-splits :
      (k : ℕ) (es : List A)
      → suc k < length es
      → window (length es) (pos 0) (pos k) es ++ window (length es) (pos (suc k)) (negsuc 0) es ≡ es
  window-splits k es h =
      ap (λ xs. xs ++ window (length es) (pos (suc k)) (negsuc 0) es)
        (window_inside 0 k es (omega arith) (omega arith))
      ∙ ap (λ xs. take (k - 0 + 1) es ++ xs) (window_to_end (suc k) es h)
      ∙ ap (λ n. take n es ++ drop (suc k) es) more
      ∙ take-append-drop (suc k) es
    where
      more : k - 0 + 1 ≡ suc k
      more = omega arith

-- The member is among those listed.
abbrev pub listed : List ℕ → List (List ℕ) → Bool
listed q [] = false
listed q (x ∷ xs) = same_bytes q x || listed q xs

module _ {F : Type 0} (fl : Floats F) where
  -- The score of a member after the pairs have been entered in their order.
  abbrev pub scored : List (F × List ℕ) → List ℕ → Option F → Option F
  scored [] q o = o
  scored (p ∷ ps) q o = scored ps q (if same_bytes q p.1 then some (kept fl o p.0) else o)

  pub record Enters (ps : List (F × List ℕ)) (z : ZSet F) (added : ℕ) (z' : ZSet F) : Type 0 where
    pub valid : IsValid fl z'
    pub reads : (q : List ℕ) → score q z' ≡ scored ps q (score q z)
    pub counts : len z' ≡ len z + added

  pub record Leaves (ms : List (List ℕ)) (z : ZSet F) (removed : ℕ) (z' : ZSet F) : Type 0 where
    pub valid : IsValid fl z'
    pub reads : (q : List ℕ) → score q z' ≡ (if listed q ms then none else score q z)
    pub counts : len z' + removed ≡ len z

  -- The new score of a member, read at the member itself.
  at_self :
      (s : F) (m q : List ℕ) (z : ZSet F)
      → (if same_bytes q m then some (kept fl (score m z) s) else score q z)
        ≡ (if same_bytes q m then some (kept fl (score q z) s) else score q z)
  at_self s m q z = elim (Bool-cases (same_bytes q m)) [
    | inl hit ↦
        rw hit (ap (λ (a : List ℕ). some (kept fl (score a z) s)) (sym (same_bytes_eq q m hit)))
    | inr miss ↦ rw miss refl
  ]

  -- The loop of ZADD: the scores are those of the pairs in their order, and the count is what the set
  -- has grown by.
  pub add_all-Enters :
      (ps : List (F × List ℕ)) (count : ℕ) (z : ZSet F)
      → IsValid fl z
      → (added : ℕ) × ((add_all fl ps count z).0 ≡ count + added)
        × Enters ps z added (add_all fl ps count z).1
  unfolding add_all
  add_all-Enters [] count z v =
      (0, omega arith, record { valid = v; reads = λ q. refl; counts = omega arith })
  add_all-Enters (p ∷ ps) count z v =
      let one = insert-Scores fl p.0 p.1 z v in
      let fresh : ℕ = if (insert fl p.0 p.1 z).0 then 1 else 0 in
      let next : ℕ = if (insert fl p.0 p.1 z).0 then count + 1 else count in
      let more : next ≡ count + fresh = ground arith in
      let longer : len (insert fl p.0 p.1 z).1 ≡ len z + fresh = ground (arith, one.counts) in
      let (added, told, rest) = add_all-Enters ps next (insert fl p.0 p.1 z).1 one.valid in
      (
        fresh + added,
        told ∙ omega (arith, more),
        record {
          valid = rest.valid;
          reads = λ q. rest.reads q ∙ ap (scored ps q) (one.reads q ∙ at_self p.0 p.1 q z);
          counts = omega (arith, rest.counts, longer);
        },
      )

  -- The loop of ZREM: the listed members have no score, and the count is what the set has shrunk by.
  pub remove_all-Leaves :
      (ms : List (List ℕ)) (count : ℕ) (z : ZSet F)
      → IsValid fl z
      → (removed : ℕ) × ((remove_all fl ms count z).0 ≡ count + removed)
        × Leaves ms z removed (remove_all fl ms count z).1
  unfolding remove_all
  remove_all-Leaves [] count z v =
      (0, omega arith, record { valid = v; reads = λ q. refl; counts = omega arith })
  remove_all-Leaves (x ∷ ms) count z v =
      let one = remove-Scores fl x z v in
      let gone : ℕ = if (remove fl x z).0 then 1 else 0 in
      let next : ℕ = if (remove fl x z).0 then count + 1 else count in
      let more : next ≡ count + gone = ground arith in
      let shorter : len (remove fl x z).1 + gone ≡ len z = ground (arith, one.counts) in
      let (removed, told, rest) = remove_all-Leaves ms next (remove fl x z).1 one.valid in
      (
        gone + removed,
        told ∙ omega (arith, more),
        record {
          valid = rest.valid;
          reads = λ q. rest.reads q ∙ ground (arith, one.reads q);
          counts = omega (arith, rest.counts, shorter);
        },
      )

module _ {F : Type 0} (fl : Floats F) {m : Crates (Value (ZSet F))} where
  get_zset_mut-Held :
      (t : Tree m) (ttl : Option ℕ) (key : List ℕ) (idx : ℕ) (node : Node (Value (ZSet F)))
      (z : ZSet F)
      → Held t key idx node (zset_value z)
      → get_zset_mut fl t ttl key ≡ ok (inr (idx, z), t)
  unfolding get_zset_mut as_zset
  get_zset_mut-Held t ttl key idx node z h =
      get_or_new-Held as_zset (zset_value ZSet.new) true ttl t key idx node (zset_value z) z h refl

  -- Where a key of a well-formed tree holds a valid sorted set, ZADD enters the pairs in their
  -- order, in the node of the key alone, and replies with the number of members by which the
  -- set has grown; it stays valid.
  pub cmd_zadd-Enters :
      (t : Tree m) (key : List ℕ) (ps : List (F × List ℕ)) (ttl : Option ℕ) (idx : ℕ)
      (node : Node (Value (ZSet F))) (z : ZSet F)
      → Held t key idx node (zset_value z)
      → IsValid fl z
      → (z' : ZSet F) × (added : ℕ) × Enters fl ps z added z'
        × (cmd_zadd fl t key ps ttl ≡ ok (inr added, holding t idx node (zset_value z')))
  unfolding cmd_zadd
  cmd_zadd-Enters t key ps ttl idx node z h v =
      let (added, told, enters) = add_all-Enters fl ps 0 z v in
      let count : (add_all fl ps 0 z).0 ≡ added = omega (arith, told) in
      (
        (add_all fl ps 0 z).1,
        added,
        enters,
        rw (get_zset_mut-Held t ttl key idx node z h, h.there, count) refl,
      )
