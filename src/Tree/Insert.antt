-- ===== src/Tree/Insert.antt =====
-- Writes that may add nodes: `set_internal`, `split_node`, `create_node_with_val` and `ensure_key`
-- of oxidart/src/lib.rs.
use radixox.Common.{
  ℕ, suc, ◌+◌, ◌-◌, ◌^◌, min, not, ◌==◌, List, [], ◌∷◌, Option, none, some, Run, ok, panic, expect,
  ◌>>=◌, if◌then◌else◌, no_index, length, get_elem?, take, drop,
}
use radixox.Childs
use radixox.Expiry
use radixox.Expiry.{no_expiracy_bits}
use radixox.Node.{Node, set_val, new_leaf, new_empty_leaf, get_overflow_idx}
use radixox.Tree.{
  Crates, Tree, Stop, missing, arrived, halted, dangling, get_node, put_node, descend_key,
}
use radixox.Tree.Link.{attach, push_child_idx}

-- The word of the upper node: no time, unless a value with a time is stored there.
upper_exp : {V : Type 0} → ℕ → Option V → Option ℕ → Run ℕ
upper_exp e (some v) (some ttl) = Expiry.set_exp (Expiry.set_no_expiracy e) ttl
upper_exp e _ _ = ok (Expiry.set_no_expiracy e)

-- `u64::saturating_add`
abbrev pub saturating_add : ℕ → ℕ → ℕ
saturating_add a b = min (a + b) (2 ^ 64 - 1)

module _ {V : Type 0} {m : Crates V} where
  insert : Tree m → Node V → Run (ℕ × Tree m)
  insert t n = do (i, map) ← m.nodes.insert t.map n; ok (i, record t { map = map })

  insert_tagged : Tree m → Node V → Run (ℕ × Tree m)
  insert_tagged t n = do (i, map) ← m.nodes.insert_tagged t.map n; ok (i, record t { map = map })

  -- The parent is read before the new node is stored.
  unfoldable pub create_node_with_val : Tree m → ℕ → ℕ → V → List ℕ → ℕ → Run (ℕ × Tree m)
  unfolding insert insert_tagged
  create_node_with_val t parent_idx radix val compression ttl = do
    father ← get_node t parent_idx
    leaf ← new_leaf compression val ttl parent_idx radix
    (i, t') ← (if not (ttl == no_expiracy_bits) then insert_tagged t leaf else insert t leaf)
    t'' ← attach t' parent_idx (Childs.is_full father.childs) (get_overflow_idx father) radix i
    ok (i, t'')

  create_empty_node : Tree m → ℕ → ℕ → List ℕ → Run (ℕ × Tree m)
  unfolding insert
  create_empty_node t parent_idx radix compression = do
    (i, t') ← insert t (new_empty_leaf compression parent_idx radix)
    t'' ← push_child_idx t' parent_idx i radix
    ok (i, t'')

  split_rest : Tree m → ℕ → ℕ → List ℕ → Option ℕ → Option V → Run (ℕ × Tree m)
  unfolding create_empty_node
  split_rest t idx common_len key_rest ttl val = do
    new_radix ← expect (get_elem? key_rest common_len)
    let new_compression = drop (suc common_len) key_rest
    elim val [
      | some v ↦
          create_node_with_val t idx new_radix v new_compression
            (elim ttl [ none ↦ no_expiracy_bits | some e ↦ e ])
      | none ↦ create_empty_node t idx new_radix new_compression
    ]

  -- The upper node keeps the index, the first `common_len` bytes and, if the key ends there, takes
  -- the value; a new node below it takes over all that the node held, its packed word included.
  unfoldable pub split_node : Tree m → ℕ → List ℕ → ℕ → Option ℕ → Option V → Run (ℕ × Tree m)
  unfolding insert insert_tagged upper_exp split_rest
  split_node t common_len key_rest idx ttl val = do
    let val_on_intermediate = common_len == length key_rest
    let val_here = if val_on_intermediate then val else none
    node ← get_node t idx
    e ← upper_exp node.exp_and_radix val_here ttl
    old_radix ← expect (get_elem? node.compression common_len)
    let upper = record node {
      compression = take common_len node.compression;
      childs = Childs.default;
      val = val_here;
      exp_and_radix = e;
      overflow_idx = no_index;
    }
    let old_child = record node {
      compression = drop (suc common_len) node.compression;
      parent_idx = idx;
    }
    (i, t') ←
        (if Expiry.does_expire node.exp_and_radix
          then insert_tagged (put_node t idx upper) old_child
          else insert (put_node t idx upper) old_child)
    t'' ← push_child_idx t' idx i old_radix
    if val_on_intermediate then ok (idx, t'') else split_rest t'' idx common_len key_rest ttl val

  -- What `set_internal` does where the loop ends.
  finish_set : Tree m → ℕ → V → Stop → Run (Tree m)
  finish_set t ttl val (missing idx []) = panic
  finish_set t ttl val (missing idx (radix ∷ rest)) = do
    r ← create_node_with_val t idx radix val rest ttl
    ok r.1
  finish_set t ttl val (arrived s) = do
    node ← get_node t s.idx
    n ← set_val node val ttl
    ok (put_node t s.idx n)
  finish_set t ttl val (halted common_len s rest) = do
    r ← split_node t common_len rest s.idx (some ttl) (some val)
    ok r.1
  finish_set t ttl val dangling = panic

  unfoldable pub set_internal : Tree m → List ℕ → ℕ → V → Run (Tree m)
  unfolding finish_set
  set_internal t [] ttl val = do
    node ← get_node t t.root_idx
    n ← set_val node val ttl
    ok (put_node t t.root_idx n)
  set_internal t (r ∷ rest) ttl val = do s ← descend_key t (r ∷ rest); finish_set t ttl val s

  unfoldable pub set : Tree m → List ℕ → V → Run (Tree m)
  set t key val = set_internal t key no_expiracy_bits val

  unfoldable pub set_ttl : Tree m → List ℕ → ℕ → V → Run (Tree m)
  set_ttl t key secs val = set_internal t key (saturating_add t.now secs) val

  -- What `ensure_key` does where the loop ends.
  finish_ensure : Tree m → Stop → Run (ℕ × Tree m)
  unfolding create_empty_node
  finish_ensure t (missing idx []) = panic
  finish_ensure t (missing idx (radix ∷ rest)) = create_empty_node t idx radix rest
  finish_ensure t (arrived s) = ok (s.idx, t)
  finish_ensure t (halted common_len s rest) = split_node t common_len rest s.idx none none
  finish_ensure t dangling = panic

  unfoldable pub ensure_key : Tree m → List ℕ → Run (ℕ × Tree m)
  unfolding finish_ensure
  ensure_key t [] = ok (t.root_idx, t)
  ensure_key t (r ∷ rest) = do s ← descend_key t (r ∷ rest); finish_ensure t s
