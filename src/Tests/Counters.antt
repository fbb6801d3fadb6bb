-- ===== src/Tests/Counters.antt =====
-- A counter, and the laws of the counters at concrete inputs.
use radixox.Common.{
  ℕ, zero, suc, ◌+◌, ◌*◌, ◌≡◌, refl, false, [], ◌∷◌, Option, none, some, arith, replicate, no_index,
  ℤ, pos, negsuc, ◌+ℤ◌, wrapping_neg, in_i64, if◌then◌else◌, inl, inr, ok,
}
use radixox.Childs
use radixox.Arena
use radixox.Expiry
use radixox.Slab.Bounded.{tagged_slots}
use radixox.Node.{Node, get_value}
use radixox.Tree.{Crates, Tree, traverse_to_key, find, put_node}
use radixox.Value.{Value, overflow, int, string, to_int, parse_i64}
use radixox.Value.Counter.{decrby}
use radixox.Value.Counter.Laws.{Holds, decrby-replied}
use radixox.Tests.Concrete.{huge}

abbrev pub crates : Crates (Value ℕ)
crates = record { huge = huge; nodes = tagged_slots (Node (Value ℕ)) }

-- The node of the key "ab", which holds "42".
abbrev leaf : Node (Value ℕ)
leaf = record {
  compression = 98 ∷ [];
  childs = record { idxs = replicate 6 no_index; radixs = replicate 6 0; len = 0 };
  val = some (string (52 ∷ 50 ∷ []));
  exp_and_radix = 98 * 72057594037927936 + 72057594037927935;
  overflow_idx = no_index;
  parent_idx = 0;
}

-- The root, whose child under 97 is the node 1.
abbrev root : Node (Value ℕ)
root = record leaf {
  compression = [];
  childs = record { idxs = 1 ∷ replicate 5 no_index; radixs = 97 ∷ replicate 5 0; len = 1 };
  val = none;
}

abbrev cells : ℕ → Option (Node (Value ℕ))
cells zero = some root
cells (suc zero) = some leaf
cells (suc (suc i)) = none

abbrev pair : Tree crates
pair = record {
  map = record { used = 2; cell = cells; mark = λ i. false };
  overflow_arena = Arena.new;
  huge_ovf = crates.huge.slab.empty;
  now = 0;
  root_idx = 0;
}

pair-Holds : Holds pair (97 ∷ 98 ∷ []) 1 leaf (pos 42)
unfolding traverse_to_key find get_value to_int radixox.Tree.descend Childs.find
    radixox.Node.compare_compression_key radixox.Node.is_expired Expiry.exp parse_i64
pair-Holds = record {
  found = refl;
  there = refl;
  held = string (52 ∷ 50 ∷ []);
  alive = refl;
  reads = refl;
}

-- 42 less -(2 ^ 63 - 1) has more than 64 bits.
decrby-replied_example :
    (n : ℤ) × (n +ℤ negsuc 9223372036854775806 ≡ pos 42)
    × (decrby pair (97 ∷ 98 ∷ []) (negsuc 9223372036854775806) ≡ (
        if in_i64 n
        then ok (inr n, put_node pair 1 (record leaf { val = some (int n) }))
        else ok (inl overflow, pair)))
decrby-replied_example =
    decrby-replied pair (97 ∷ 98 ∷ []) (negsuc 9223372036854775806) 1 leaf (pos 42) pair-Holds refl
      (λ e. ground (arith, e))

-- Subtracting `i64::MIN` adds it.
decrby_least : wrapping_neg (negsuc 9223372036854775807) ≡ negsuc 9223372036854775807
unfolding wrapping_neg
decrby_least = refl
