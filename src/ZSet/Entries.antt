-- ===== src/ZSet/Entries.antt =====
-- Scores and members in order: `(OrderedFloat<f64>, SharedByte)` of oxidart/src/zcommand.rs.
pub mod Laws
use radixox.Common.{
  ℕ, zero, suc, ◌≡◌, refl, Bool, true, false, ◌||◌, ◌&&◌, ◌==◌, ltb, if◌then◌else◌, List, [], ◌∷◌,
  Option, none, some, same_bytes, arith,
}
use radixox.BTree.{Order}
use radixox.BTree.Bytes.{before_bytes, bytes_order}

-- What the code uses of `f64`: the place of a number in the total order of `OrderedFloat`, where the
-- two zeros have one place, and the numbers that are none; addition; `to_string` and `parse`.
pub record Floats (F : Type 0) : Type 0 where
  pub rank : F → ℕ
  pub plus : F → F → F
  pub print : F → List ℕ
  pub parse : List ℕ → Option F

abbrev pub Entry : Type 0 → Type 0
Entry F = F × List ℕ

module _ {F : Type 0} (fl : Floats F) where
  -- The order of the pairs: by score, then by member.
  abbrev pub before_entry : Entry F → Entry F → Bool
  before_entry d e =
      ltb (fl.rank d.0) (fl.rank e.0) || (fl.rank d.0 == fl.rank e.0 && before_bytes d.1 e.1)

  unfoldable pub entry_order : Order (Entry F)
  unfolding bytes_order
  entry_order = record {
    before = before_entry;
    irreflexive = λ e. ground (arith, bytes_order.irreflexive e.1);
    transitive = λ c d e h k. ground (arith, bytes_order.transitive c.1 d.1 e.1);
  }

module _ {F : Type 0} where
  -- `iter().find(|(_, m)| m == &member)`, with its score
  unfoldable pub score_in : List ℕ → List (Entry F) → Option F
  score_in q [] = none
  score_in q (e ∷ es) = if same_bytes q e.1 then some e.0 else score_in q es

  abbrev pub next : Option (ℕ × F) → Option (ℕ × F)
  next none = none
  next (some (pos, s)) = some (suc pos, s)

  -- `iter().position(|(_, m)| m == &member)`, with the score at that position
  unfoldable pub locate : List ℕ → List (Entry F) → Option (ℕ × F)
  locate q [] = none
  locate q (e ∷ es) = if same_bytes q e.1 then some (zero, e.0) else next (locate q es)

  -- `Vec::remove`
  unfoldable pub remove_at : ℕ → List (Entry F) → List (Entry F)
  remove_at pos [] = []
  remove_at zero (e ∷ es) = es
  remove_at (suc pos) (e ∷ es) = e ∷ remove_at pos es
