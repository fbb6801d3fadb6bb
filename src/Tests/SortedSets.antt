-- ===== src/Tests/SortedSets.antt =====
-- Sets and sorted sets, and their laws at concrete inputs.
use radixox.Common.{
  ℕ, ◌+◌, ◌≡◌, refl, min, List, [], ◌∷◌, ◌++◌, none, some, inr, ok, decimal, length, arith,
}
use mathlib.Core.List.{reverse}
use radixox.Value.{Value, unsigned, set, zset}
use radixox.Value.SetCommands.{multiple, parse_u32, cmd_sadd, cmd_spop}
use radixox.Value.SetCommands.Laws.{Sorted, Adds, cmd_sadd-Adds}
use radixox.BTree.Bytes.{bytes_order}
use radixox.Value.SetCommands.Pop.{parse_u32-decimal, cmd_spop-splits}
use radixox.Value.ZSetCommands.{add_all, cmd_zadd}
use radixox.Value.ZSetCommands.Laws.{Enters, add_all-Enters, cmd_zadd-Enters}
use radixox.Value.Borrowed.Laws.{holding}
use radixox.ZSet
use radixox.ZSet.{ZSet, small, large, insert, remove, iter, score}
use radixox.ZSet.Entries.{Floats, score_in}
use radixox.ZSet.Laws.{IsValid, Inserts, Removes}
use radixox.ZSet.Insert.{insert-Scores}
use radixox.ZSet.Remove.{remove-Scores}
use radixox.Tests.TwoNodes.{tree, leaf}
use radixox.Tests.OneKey.{tree-Held}

-- Scores that are natural numbers.
abbrev pub naturals : Floats ℕ
naturals = record { rank = λ n. n; plus = λ a b. a + b; print = decimal; parse = unsigned }

new-IsValid : IsValid naturals ZSet.new
unfolding score iter ZSet.len score_in
new-IsValid = record {
  sorted = tt;
  distinct = tt;
  reads = λ q. refl;
  counts = refl;
  fits = omega arith;
}

abbrev pairs : ℕ → List (ℕ × List ℕ)
pairs n = (7, n ∷ 1 ∷ []) ∷ (5, n ∷ 2 ∷ []) ∷ (6, n ∷ 3 ∷ []) ∷ (9, n ∷ 4 ∷ []) ∷ []

-- A vector that is full.
abbrev sixteen : ZSet ℕ
sixteen = (add_all naturals (pairs 1 ++ pairs 2 ++ pairs 3 ++ pairs 4) 0 ZSet.new).1

sixteen-IsValid : IsValid naturals sixteen
sixteen-IsValid =
    (add_all-Enters naturals (pairs 1 ++ pairs 2 ++ pairs 3 ++ pairs 4) 0 ZSet.new
      new-IsValid).2.valid

insert-Scores_example : Inserts naturals 8 (0 ∷ []) sixteen (insert naturals 8 (0 ∷ []) sixteen)
insert-Scores_example = insert-Scores naturals 8 (0 ∷ []) sixteen sixteen-IsValid

-- The double index that it becomes.
abbrev seventeen : ZSet ℕ
seventeen = (insert naturals 8 (0 ∷ []) sixteen).1

remove-Scores_example :
    Removes naturals (1 ∷ 2 ∷ []) seventeen (remove naturals (1 ∷ 2 ∷ []) seventeen)
remove-Scores_example =
    remove-Scores naturals (1 ∷ 2 ∷ []) seventeen
      (insert-Scores naturals 8 (0 ∷ []) sixteen sixteen-IsValid).valid

abbrev one_small : ZSet ℕ
one_small = small ((3, 0 ∷ []) ∷ [])

abbrev one_large : ZSet ℕ
one_large = large (record { sorted = (3, 0 ∷ []) ∷ []; scores = (0 ∷ [], 3) ∷ [] })

one_small-IsValid : IsValid naturals one_small
unfolding score iter ZSet.len score_in
one_small-IsValid = record {
  sorted = (tt, tt);
  distinct = (refl, tt);
  reads = λ q. refl;
  counts = refl;
  fits = omega arith;
}

one_large-IsValid : IsValid naturals one_large
unfolding score iter ZSet.len score_in
one_large-IsValid = record {
  sorted = (tt, tt);
  distinct = (refl, tt);
  reads = λ q. refl;
  counts = refl;
  fits = record {
    sorted = (tt, tt);
    distinct = (refl, tt);
    reads = λ q. refl;
    counts = refl;
    single = (refl, tt);
  };
}

cmd_zadd-Enters_example :
    (z' : ZSet ℕ) × (added : ℕ) × Enters naturals (pairs 1) one_small added z'
    × (cmd_zadd naturals (tree (zset one_small)) (97 ∷ 98 ∷ []) (pairs 1) none
        ≡ ok (inr added, holding (tree (zset one_small)) 1 (leaf (zset one_small)) (zset z')))
cmd_zadd-Enters_example =
    cmd_zadd-Enters naturals (tree (zset one_small)) (97 ∷ 98 ∷ []) (pairs 1) none 1
      (leaf (zset one_small)) one_small (tree-Held (zset one_small)) one_small-IsValid

abbrev letters : List (List ℕ)
letters = (97 ∷ []) ∷ (98 ∷ 1 ∷ []) ∷ (99 ∷ []) ∷ []

letters-Sorted : Sorted letters
unfolding bytes_order
letters-Sorted = ((refl, (refl, tt)), ((refl, tt), (tt, tt)))

cmd_sadd-Adds_example :
    (s' : List (List ℕ)) × (added : ℕ) × Adds ((98 ∷ []) ∷ (99 ∷ []) ∷ []) letters added s'
    × (cmd_sadd (tree {V = Value ℕ} (set letters)) (97 ∷ 98 ∷ []) ((98 ∷ []) ∷ (99 ∷ []) ∷ []) none
        ≡ ok
            (inr added, holding (tree {V = Value ℕ} (set letters)) 1 (leaf (set letters)) (set s')))
cmd_sadd-Adds_example =
    cmd_sadd-Adds (tree {V = Value ℕ} (set letters)) (97 ∷ 98 ∷ []) ((98 ∷ []) ∷ (99 ∷ []) ∷ [])
      none 1 (leaf (set letters)) letters (tree-Held (set letters)) letters-Sorted

cmd_spop-splits_example :
    (front back : List (List ℕ)) × (front ++ back ≡ letters)
    × (length back ≡ min 2 (length letters))
    × (cmd_spop (tree {V = Value ℕ} (set letters)) (97 ∷ 98 ∷ []) (some (decimal 2))
        ≡ ok (
          inr (multiple (reverse back)),
          holding (tree {V = Value ℕ} (set letters)) 1 (leaf (set letters)) (set front),
        ))
cmd_spop-splits_example =
    cmd_spop-splits (tree {V = Value ℕ} (set letters)) (97 ∷ 98 ∷ []) 2 1 (leaf (set letters))
      letters (tree-Held (set letters)) (omega arith) (omega arith) (omega arith)

parse_u32-decimal_example : parse_u32 (decimal 4294967295) ≡ some 4294967295
parse_u32-decimal_example = parse_u32-decimal 4294967295 (omega arith)
