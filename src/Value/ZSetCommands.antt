-- ===== src/Value/ZSetCommands.antt =====
-- The commands on sorted sets of oxidart/src/zcommand.rs, on the tree.
pub mod Laws
use radixox.Common.{
  ℕ, zero, suc, ◌+◌, ◌-◌, ◌%◌, ◌^◌, min, Bool, true, false, ◌==◌, ltb, if◌then◌else◌, List, [], ◌∷◌,
  Option, none, some, ◌⊎◌, inl, inr, Run, ok, panic, ◌>>=◌, ℤ, pos, negsuc, take, drop,
}
use radixox.Tree.{Crates, Tree}
use radixox.Value.{Value, RedisType, as_zset}
use radixox.Value.{zset as zset_value}
use radixox.Value.HashCommands.{TypeError}
use radixox.Value.Borrowed.{get_or_new, get_typed, put_value}
use radixox.Value.SetCommands.{clean_up}
use radixox.ZSet
use radixox.ZSet.{ZSet}
use radixox.ZSet.Entries.{Floats, Entry}

-- An index of ZRANGE: a negative one counts from the end, and `cap` is the greatest.
abbrev pub normalize : ℕ → ℕ → ℤ → ℕ
normalize len cap (pos n) = min n cap
normalize len cap (negsuc n) = len - suc n

-- `iter().skip(start).take(stop - start + 1)` between the two indices.
unfoldable pub window {ℓ} : {A : Type ℓ} → ℕ → ℤ → ℤ → List A → List A
window len start stop es =
    let first = normalize len len start in
    let last = normalize len (len - 1) stop in
    if len == 0 then [] else if ltb last first then [] else take (last - first + 1) (drop first es)

module _ {F : Type 0} (fl : Floats F) where
  -- The members, each with its score behind it if these are wanted.
  abbrev pub shown : Bool → List (Entry F) → List (List ℕ)
  shown with_scores [] = []
  shown with_scores (e ∷ es) =
      let rest = shown with_scores es in
      if with_scores then e.1 ∷ fl.print e.0 ∷ rest else e.1 ∷ rest

  -- The loops over the members, with the number of those that made a difference.
  unfoldable pub add_all : List (F × List ℕ) → ℕ → ZSet F → ℕ × ZSet F
  add_all [] added z = (added, z)
  add_all (p ∷ ps) added z =
      let (new, z') = ZSet.insert fl p.0 p.1 z in add_all ps (if new then added + 1 else added) z'

  unfoldable pub remove_all : List (List ℕ) → ℕ → ZSet F → ℕ × ZSet F
  remove_all [] removed z = (removed, z)
  remove_all (x ∷ xs) removed z =
      let (old, z') = ZSet.remove fl x z in remove_all xs (if old then removed + 1 else removed) z'

  -- The score that ZINCRBY sets.
  abbrev pub raised : Option F → F → F
  raised none increment = increment
  raised (some current) increment = fl.plus current increment

module _ {F : Type 0} (fl : Floats F) {m : Crates (Value (ZSet F))} where
  -- A new time is tagged for the evictor.
  unfoldable pub get_zset_mut :
      Tree m → Option ℕ → List ℕ → Run ((TypeError ⊎ (ℕ × ZSet F)) × Tree m)
  get_zset_mut t ttl key = get_or_new as_zset (zset_value ZSet.new) true t ttl key

  unfoldable pub cmd_zadd :
      Tree m → List ℕ → List (F × List ℕ) → Option ℕ → Run ((TypeError ⊎ ℕ) × Tree m)
  cmd_zadd t key score_members ttl = do
    (r, t) ← get_zset_mut t ttl key
    elim r [
      | inl e ↦ ok (inl e, t)
      | inr (idx, z) ↦ do
        t ← put_value t idx (zset_value (add_all fl score_members 0 z).1)
        ok (inr (add_all fl score_members 0 z).0, t)
    ]

  -- A command that reads a sorted set, with its reply where there is none.
  abbrev pub read_zset {ℓ} :
      {A : Type ℓ} → Tree m → List ℕ → A → (ZSet F → A) → Run ((RedisType ⊎ A) × Tree m)
  read_zset t key default f = do
    (r, t) ← get_typed as_zset t key
    elim r [
      | inl other ↦ ok (inl other, t)
      | inr none ↦ ok (inr default, t)
      | inr (some (idx, z)) ↦ ok (inr (f z), t)
    ]

  unfoldable pub cmd_zcard : Tree m → List ℕ → Run ((RedisType ⊎ ℕ) × Tree m)
  cmd_zcard t key = read_zset t key 0 (λ z. ZSet.len z % 2 ^ 32)

  unfoldable pub cmd_zrange :
      Tree m → List ℕ → ℤ → ℤ → Bool → Run ((RedisType ⊎ List (List ℕ)) × Tree m)
  unfolding window
  cmd_zrange t key start stop with_scores =
      read_zset t key [] (λ z. shown fl with_scores (window (ZSet.len z) start stop (ZSet.iter z)))

  unfoldable pub cmd_zscore : Tree m → List ℕ → List ℕ → Run ((RedisType ⊎ Option F) × Tree m)
  cmd_zscore t key member = read_zset t key none (ZSet.score member)

  unfoldable pub cmd_zrem : Tree m → List ℕ → List (List ℕ) → Run ((RedisType ⊎ ℕ) × Tree m)
  cmd_zrem t key members = do
    (r, t) ← get_typed as_zset t key
    elim r [
      | inl other ↦ ok (inl other, t)
      | inr none ↦ ok (inr 0, t)
      | inr (some (idx, z)) ↦
          let (removed, z') = remove_all fl members 0 z in
          do t ← put_value t idx (zset_value z'); clean_up (ZSet.is_empty z') key (inr removed) t
    ]

  unfoldable pub cmd_zincrby : Tree m → List ℕ → F → List ℕ → Run ((TypeError ⊎ F) × Tree m)
  cmd_zincrby t key increment member = do
    (r, t) ← get_zset_mut t none key
    elim r [
      | inl e ↦ ok (inl e, t)
      | inr (idx, z) ↦ do
        let new_score = raised fl (ZSet.score member z) increment
        t ← put_value t idx (zset_value (ZSet.insert fl new_score member z).1)
        ok (inr new_score, t)
    ]
