-- ===== src/Value/SetCommands/Pop.antt =====
-- What SPOP takes out of a set, and the numbers that it reads.
use radixox.Common.{
  ℕ, ◌+◌, ◌*◌, ◌-◌, ◌^◌, ◌<◌, min, ◌≡◌, ◌≢◌, refl, ap, ◌∙◌, ne→==, ltb, if◌then◌else◌, List, [],
  ◌∷◌, ◌++◌, append-nil, none, some, inr, ok, length, Digits, value, acc-le-value, decimal,
  Digits-decimal, value-decimal, length-decimal_pos, arith,
}
use mathlib.Core.List.{reverse}
use radixox.Node.{Node}
use radixox.Tree.{Crates, Tree}
use radixox.BTree.{pop_loop}
use radixox.BTree.Pop.{pop_loop-splits}
use radixox.Value.{Value}
use radixox.Value.{set as set_value}
use radixox.Value.Borrowed.Laws.{Held, holding}
use radixox.Value.SetCommands.{
  multiple, parse_loop, parse_u32, pop_count, popped, spop_many, cmd_spop,
}
use radixox.Value.SetCommands.Laws.{get_btree_set_mut-Held}

parse_loop-value :
    (acc : ℕ) (bs : List ℕ)
    → Digits bs
    → value acc bs < 2 ^ 32
    → parse_loop acc bs ≡ some (value acc bs)
unfolding parse_loop
parse_loop-value acc [] d h = refl
parse_loop-value acc (b ∷ bs) (digit, d) h =
    ground (
      arith,
      acc-le-value (acc * 10 + (b - b'0')) bs,
      parse_loop-value (acc * 10 + (b - b'0')) bs d,
    )

parse_u32-loop : (bs : List ℕ) → 0 < length bs → parse_u32 bs ≡ parse_loop 0 bs
unfolding parse_u32
parse_u32-loop [] h = elim h [ ]
parse_u32-loop (b ∷ bs) h = refl

-- A number of 32 bits is read back from its decimal form.
pub parse_u32-decimal : (n : ℕ) → n < 2 ^ 32 → parse_u32 (decimal n) ≡ some n
parse_u32-decimal n h =
    parse_u32-loop (decimal n) (length-decimal_pos n)
    ∙ parse_loop-value 0 (decimal n) (Digits-decimal n) (omega (arith, value-decimal n))
    ∙ ap some (value-decimal n)

module _ {Z : Type 0} {m : Crates (Value Z)} where
  -- Where a key of a well-formed tree holds a set, SPOP with a number of 32 bits other than 0
  -- and 1 takes that many of the last elements, or all if there are fewer, out of the set in
  -- the node of the key, and replies with them, the last one first; the others stay.
  pub cmd_spop-splits :
      (t : Tree m) (key : List ℕ) (n idx : ℕ) (node : Node (Value Z)) (s : List (List ℕ))
      → Held t key idx node (set_value s)
      → n < 2 ^ 32
      → n ≢ 0
      → n ≢ 1
      → (front back : List (List ℕ)) × (front ++ back ≡ s)
        × (length back ≡ min n (length s))
        × (cmd_spop t key (some (decimal n))
            ≡ ok (inr (multiple (reverse back)), holding t idx node (set_value front)))
  unfolding cmd_spop popped
  cmd_spop-splits t key n idx node s h small zero_no one_no =
      let (whole, many) = pop_loop-splits n [] s in
      let positive : (if ltb 0 n then some n else none) ≡ some n = ground (arith, zero_no) in
      let count : pop_count (some (decimal n)) ≡ some n =
        ap (λ o. elim o [ none ↦ none | some k ↦ if ltb 0 k then some k else none ])
          (parse_u32-decimal n small)
        ∙ positive in
      (
        (pop_loop n [] s).1,
        (pop_loop n [] s).0,
        whole ∙ append-nil s,
        omega (arith, many),
        ap (spop_many t key) count
            ∙ rw (get_btree_set_mut-Held t none key idx node s h, h.there, ne→== n 1 one_no) refl,
      )
