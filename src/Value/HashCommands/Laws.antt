-- ===== src/Value/HashCommands/Laws.antt =====
-- What `cmd_hset` does to a hash, and to a hash whose time has passed.
use radixox.Common.{
  ℕ, ◌+◌, ◌≡◌, ◌≢◌, refl, ap, ◌∙◌, inr, true, if◌then◌else◌, List, [], ◌∷◌, Option, none, some,
  same_bytes, ==_refl, ok, panic, expect, ◌>>=◌, arith,
}
use radixox.Node.{Node, get_value, is_expired}
use radixox.Tree.{Crates, Tree, try_get_node, put_node}
use radixox.Tree.Insert.{ensure_key}
use radixox.Value.{Value, hash, as_hash}
use radixox.Hash
use radixox.Hash.{Hash, insert, get}
use radixox.Hash.Laws.{IsValid, insert-Puts}
use radixox.Value.Borrowed.Laws.{Held, ensure_key-Held}
use radixox.Value.HashCommands.{insert_all, ready, borrow, use_hash, get_hash_mut, cmd_hset}

-- The value of a field after the pairs have been written in their order.
abbrev pub overlaid : List (List ℕ × List ℕ) → List ℕ → Option (List ℕ) → Option (List ℕ)
overlaid [] q o = o
overlaid (p ∷ ps) q o = overlaid ps q (if same_bytes q p.0 then some p.1 else o)

pub insert_all-overlaid :
    (ps : List (List ℕ × List ℕ)) (added : ℕ) (h : Hash)
    → IsValid h
    → IsValid (insert_all ps added h).1
      × ((q : List ℕ) → get q (insert_all ps added h).1 ≡ overlaid ps q (get q h))
insert_all-overlaid [] added h v = (v, λ q. refl)
insert_all-overlaid (p ∷ ps) added h v =
    let puts = insert-Puts p.0 p.1 h v in
    let next = if (insert p.0 p.1 h).0 then added + 1 else added in
    let (v', reads) = insert_all-overlaid ps next (insert p.0 p.1 h).1 puts.valid in
    (v', λ q. reads q ∙ ap (overlaid ps q) (puts.reads q))

module _ {Z : Type 0} where
  get_value-expired :
      (node : Node (Value Z)) (now : ℕ) → is_expired node now ≡ true → get_value node now ≡ none
  unfolding get_value
  get_value-expired node now past = ground (arith, past)

module _ {Z : Type 0} {m : Crates (Value Z)} where
  get_hash_mut-expired :
      (t t' : Tree m) (key : List ℕ) (idx : ℕ) (node : Node (Value Z))
      → ensure_key t key ≡ ok (idx, t')
      → try_get_node t' idx ≡ some node
      → is_expired node t'.now ≡ true
      → get_hash_mut t none key ≡ panic
  unfolding get_hash_mut is_expired
  get_hash_mut-expired t t' key idx node found there past =
      let fresh = record node { val = some (hash Hash.new) } in
      rw (found, there)
        (ap (λ o. ready none node o >>= borrow t' idx) (get_value-expired node t'.now past)
          ∙ ap (λ o. expect o >>= use_hash t' idx fresh) (get_value-expired fresh t'.now past))

  -- Where the time of the node that the key leads to has passed, `cmd_hset` without a time of its own
  -- panics: the new hash in the node has the old time, so it is not there where it is expected.
  pub cmd_hset-expired :
      (t t' : Tree m) (key : List ℕ) (ps : List (List ℕ × List ℕ)) (idx : ℕ) (node : Node (Value Z))
      → ensure_key t key ≡ ok (idx, t')
      → try_get_node t' idx ≡ some node
      → is_expired node t'.now ≡ true
      → cmd_hset t key ps none ≡ panic
  unfolding cmd_hset
  cmd_hset-expired t t' key ps idx node found there past =
      rw (get_hash_mut-expired t t' key idx node found there past) refl

  get_hash_mut-Held :
      (t : Tree m) (key : List ℕ) (ttl : Option ℕ) (idx : ℕ) (node : Node (Value Z)) (h : Hash)
      → Held t key idx node (hash h)
      → get_hash_mut t ttl key ≡ ok (inr (idx, h), put_node t idx node)
  unfolding get_hash_mut as_hash
  get_hash_mut-Held t key ttl idx node h held =
      rw (ensure_key-Held t key idx node (hash h) held, held.there)
        (ap (λ o. ready ttl node o >>= borrow t idx) held.alive
          ∙ ap (λ o. expect o >>= use_hash t idx node) held.alive)

  -- From `t` to `t'` the node at the index got the value; its other fields, the other nodes, their tags
  -- and the tables of their children, the root and the clock are as they were.
  pub record Writes (t : Tree m) (idx : ℕ) (node : Node (Value Z)) (v : Value Z) (t' : Tree m)
      : Type 0 where
    pub here : try_get_node t' idx ≡ some (record node { val = some v })
    pub elsewhere : (i : ℕ) → idx ≢ i → try_get_node t' i ≡ try_get_node t i
    pub tags : (i : ℕ) → m.nodes.tagged t'.map i ≡ m.nodes.tagged t.map i
    pub tables : t'.overflow_arena ≡ t.overflow_arena
    pub huge : t'.huge_ovf ≡ t.huge_ovf
    pub clock : t'.now ≡ t.now
    pub root : t'.root_idx ≡ t.root_idx

  -- The node is written back as it is, and then with the value.
  twice-Writes :
      (t : Tree m) (idx : ℕ) (node : Node (Value Z)) (v : Value Z)
      → try_get_node t idx ≡ some node
      → Writes t idx node v (put_node (put_node t idx node) idx (record node { val = some v }))
  twice-Writes t idx node v there =
      let first = λ (i : ℕ). m.nodes.get-set t.map idx node node i there in
      let again : try_get_node (put_node t idx node) idx ≡ some node =
        first idx ∙ ap (λ b. if b then some node else try_get_node t idx) (==_refl idx) in
      let second = λ (i : ℕ).
        m.nodes.get-set (put_node t idx node).map idx (record node { val = some v }) node i again in
      record {
        here = ground (arith, second idx);
        elsewhere = λ i other. ground (arith, second i, first i, other);
        tags = λ i.
            m.nodes.tagged-set (put_node t idx node).map idx (record node { val = some v }) i
            ∙ m.nodes.tagged-set t.map idx node i;
        tables = refl;
        huge = refl;
        clock = refl;
        root = refl;
      }

  -- Where a key of a well-formed tree holds a hash, cmd_hset writes the pairs into it in their
  -- order, in the node of the key alone, and the hash stays valid.
  pub cmd_hset-overlaid :
      (t : Tree m) (key : List ℕ) (ps : List (List ℕ × List ℕ)) (ttl : Option ℕ) (idx : ℕ)
      (node : Node (Value Z)) (h : Hash)
      → Held t key idx node (hash h)
      → IsValid h
      → (h' : Hash) × IsValid h'
        × ((q : List ℕ) → get q h' ≡ overlaid ps q (get q h))
        × (added : ℕ) × (t' : Tree m) × (cmd_hset t key ps ttl ≡ ok (inr added, t'))
        × Writes t idx node (hash h') t'
  unfolding cmd_hset
  cmd_hset-overlaid t key ps ttl idx node h held v =
      let (v', reads) = insert_all-overlaid ps 0 h v in
      let again : try_get_node (put_node t idx node) idx ≡ some node =
        m.nodes.get-set t.map idx node node idx held.there
        ∙ ap (λ b. if b then some node else try_get_node t idx) (==_refl idx) in
      (
        (insert_all ps 0 h).1,
        v',
        reads,
        (insert_all ps 0 h).0,
        put_node (put_node t idx node) idx
            (record node { val = some (hash (insert_all ps 0 h).1) }),
        rw (get_hash_mut-Held t key ttl idx node h held, again) refl,
        twice-Writes t idx node (hash (insert_all ps 0 h).1) held.there,
      )
