-- ===== src/Value/Borrowed/Laws.antt =====
-- Borrowing a value that is there changes nothing.
use radixox.Common.{ℕ, ◌≡◌, refl, ap, ◌∙◌, Bool, List, Option, some, ◌⊎◌, inr, ok, expect, ◌>>=◌}
use radixox.Node.{Node, get_value}
use radixox.Tree.{Crates, Tree, try_get_node, put_node}
use radixox.Tree.Insert.{ensure_key}
use radixox.Tree.Shape.{IsValid}
use radixox.Tree.Descent.{Walks}
use radixox.Tree.Write.Read.{ensure_key-Walks}
use radixox.Value.{Value, RedisType}
use radixox.Value.Borrowed.{get_or_new, start, proceed, lend, put_value}

module _ {Z : Type 0} {m : Crates (Value Z)} where
  -- In a well-formed tree the key leads to a node that has the value at this time.
  pub record Held (t : Tree m) (key : List ℕ) (idx : ℕ) (node : Node (Value Z)) (v : Value Z)
      : Type 0 where
    pub vacant : List ℕ
    pub valid : IsValid vacant t
    pub way : Walks t t.root_idx key idx
    pub there : try_get_node t idx ≡ some node
    pub alive : get_value node t.now ≡ some v

  pub ensure_key-Held :
      (t : Tree m) (key : List ℕ) (idx : ℕ) (node : Node (Value Z)) (v : Value Z)
      → Held t key idx node v
      → ensure_key t key ≡ ok (idx, t)
  ensure_key-Held t key idx node v h = ensure_key-Walks h.vacant t key idx h.valid h.way

  -- The tree in which the node has the value.
  abbrev pub holding : Tree m → ℕ → Node (Value Z) → Value Z → Tree m
  holding t idx node v = put_node t idx (record node { val = some v })

  pub put_value-holding :
      (t : Tree m) (key : List ℕ) (idx : ℕ) (node : Node (Value Z)) (v w : Value Z)
      → Held t key idx node v
      → put_value t idx w ≡ ok (holding t idx node w)
  put_value-holding t key idx node v w h = rw h.there refl

  pub get_or_new-Held :
      {X : Type 0} (as_x : Value Z → RedisType ⊎ X) (empty : Value Z) (tags : Bool) (ttl : Option ℕ)
      (t : Tree m) (key : List ℕ) (idx : ℕ) (node : Node (Value Z)) (v : Value Z) (x : X)
      → Held t key idx node v
      → as_x v ≡ inr x
      → get_or_new as_x empty tags t ttl key ≡ ok (inr (idx, x), t)
  get_or_new-Held as_x empty tags ttl t key idx node v x h typed =
      rw (ensure_key-Held t key idx node v h, h.there)
        (ap (start as_x empty tags t ttl idx node) h.alive
          ∙ ap (proceed as_x t idx) typed
          ∙ rw h.there (
              ap (λ o. expect o >>= λ w. ok (lend as_x t idx (as_x w))) h.alive
              ∙ ap (λ r. ok (lend as_x t idx r)) typed))
