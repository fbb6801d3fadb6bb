-- ===== src/Tree/Write.antt =====
-- A write to a node that is there, and the lookups after it: `set_internal` and `get` of
-- oxidart/src/lib.rs.
pub mod Read
use radixox.Common.{
  ℕ, zero, suc, ◌<◌, ◌^◌, ◌≡◌, ◌≢◌, refl, sym, ap, ◌∙◌, subst, subst₂, fun_ext, ◌==◌, Bool-cases,
  if◌then◌else◌, ltb, List, [], ◌∷◌, Option, none, some, Option-cases, Run, ok, panic, ◌>>=◌, arith,
  ◌⊎◌, inl, inr, length, drop, Returns,
}
use radixox.Expiry
use radixox.Expiry.Laws.{Packs, time, set_exp-Packs}
use radixox.Node.{
  Node, CompResult, path, final, partial, compare_compression_key, get_overflow_idx, set_val,
  is_expired, get_value,
}
use radixox.Tree.{
  Crates, Tree, Stop, Spot, arrived, missing, halted, dangling, reached, try_get_node, put_node,
  find, node_find, descend, descend_key, traverse_to_key,
}
use radixox.Childs
use radixox.Childs.Laws
use radixox.Tree.Shape.{IsValid, table_of}
use radixox.Tree.Insert.{set_internal}
use radixox.Tree.Remove.{get, get_idx}

module _ {V : Type 0} {m : Crates V} (t : Tree m) (j : ℕ) (n : Node V) (val : Option V) (e : ℕ)
    (at : try_get_node t j ≡ some n) where
  abbrev pub filled : Node V
  filled = record n { val = val; exp_and_radix = e }

  abbrev pub written : Tree m
  written = put_node t j filled

  pub reads : (i : ℕ) → try_get_node written i ≡ (if j == i then some filled else try_get_node t i)
  reads i = m.nodes.get-set t.map j filled n i at

  -- What is read alike of the node before and after the write is read alike of every node.
  read_alike :
      {A : Type 0} (f : Option (Node V) → A) (i : ℕ)
      → f (some filled) ≡ f (some n)
      → f (try_get_node written i) ≡ f (try_get_node t i)
  read_alike f i alike = elim (Bool-cases (j == i)) [
    | inl here ↦
        let same : j ≡ i = ground (arith, here) in
        ap f (ground (arith, reads i, here))
        ∙ alike
        ∙ ap f (sym (subst (λ z. try_get_node t z ≡ some n) same at))
    | inr off ↦ ap f (ground (arith, reads i, off))
  ]

  find-written : (i r : ℕ) → find written i r ≡ find t i r
  unfolding find get_overflow_idx
  find-written i r =
      read_alike (λ o. elim o [ none ↦ ok none | some node ↦ node_find t node r ]) i refl

  -- A round of the loop once the link has led to `child`.
  abbrev onward : (ℕ → List ℕ → Run Stop) → ℕ → ℕ → List ℕ → ℕ → Option (Node V) → Run Stop
  onward go i r key child none = ok dangling
  onward go i r key child (some node) = elim (compare_compression_key node.compression key) [
    | final ↦ ok (arrived (record { idx = child; parent_idx = i; parent_radix = r }))
    | partial n ↦ ok (halted n (record { idx = child; parent_idx = i; parent_radix = r }) key)
    | path ↦ go child (drop (length node.compression) key)
  ]

  abbrev led : Tree m → (ℕ → List ℕ → Run Stop) → ℕ → ℕ → List ℕ → Option ℕ → Run Stop
  led t' go i r key none = ok (missing i (r ∷ key))
  led t' go i r key (some child) = onward go i r key child (try_get_node t' child)

  led-written :
      (go go' : ℕ → List ℕ → Run Stop) (i r : ℕ) (key : List ℕ)
      → go ≡ go'
      → (c : Option ℕ) → led written go i r key c ≡ led t go' i r key c
  led-written go go' i r key same none = refl
  led-written go go' i r key same (some child) =
      read_alike (onward go i r key child) child refl
      ∙ ap (λ g. onward g i r key child (try_get_node t child)) same

  round :
      (fuel : ℕ)
      → descend fuel written ≡ descend fuel t
      → (i : ℕ) (key : List ℕ) → descend (suc fuel) written i key ≡ descend (suc fuel) t i key
  unfolding descend
  round fuel same i [] = refl
  round fuel same i (r ∷ key) =
      ap (λ c. c >>= led written (descend fuel written) i r key) (find-written i r)
      ∙ ap (λ k. find t i r >>= k)
          (fun_ext (led-written (descend fuel written) (descend fuel t) i r key same))

  -- The loop ends as before the write.
  pub descend-written : (fuel : ℕ) → descend fuel written ≡ descend fuel t
  unfolding descend
  descend-written zero = refl
  descend-written (suc fuel) = fun_ext (λ i. fun_ext (round fuel (descend-written fuel) i))

  pub traverse-written : (key : List ℕ) → traverse_to_key written key ≡ traverse_to_key t key
  unfolding traverse_to_key
  traverse-written [] = refl
  traverse-written (r ∷ rest) =
      ap (λ f. f t.root_idx (r ∷ rest) >>= λ s. ok (reached s))
        (descend-written (length (r ∷ rest)))

  -- A node after the write has the links that it had before.
  seen :
      (i : ℕ) (x : Node V)
      → try_get_node written i ≡ some x
      → (y : Node V) × (try_get_node t i ≡ some y)
        × (x.childs ≡ y.childs)
        × (get_overflow_idx x ≡ get_overflow_idx y)
  unfolding get_overflow_idx
  seen i x there = elim (Bool-cases (j == i)) [
    | inl here ↦
        let same : j ≡ i = ground (arith, here) in
        let here' : filled ≡ x = ground (arith, reads i, here, there) in
        (
          n,
          subst (λ z. try_get_node t z ≡ some n) same at,
          ap (λ z. z.childs) (sym here'),
          ap get_overflow_idx (sym here'),
        )
    | inr off ↦ (x, ground (arith, reads i, off, there), refl, refl)
  ]

  pub written-IsValid : (vacant : List ℕ) → IsValid vacant t → IsValid vacant written
  written-IsValid vacant v = record {
    store = v.store;
    childs = λ i x there.
        let (y, on, same, _) = seen i x there in
        subst (λ z. Childs.Laws.IsValid z) (sym same) (v.childs i y on);
    table = λ i oi x there own.
        let (y, on, _, same) = seen i x there in v.table i oi y on (sym same ∙ own);
    apart = λ i q x there.
        let (y, on, same, table) = seen i x there in
        subst₂ (λ c o. (Childs.find c q ≡ none) ⊎ (table_of t o q ≡ none)) (sym same) (sym table)
          (v.apart i q y on);
    owner = λ i k oi x z there there' own own'.
        let (y, on, _, same) = seen i x there in
        let (y', on', _, same') = seen k z there' in
        v.owner i k oi y y' on on' (sym same ∙ own) (sym same' ∙ own');
  }
