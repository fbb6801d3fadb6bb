-- ===== src/Tests/Trees.antt =====
-- Runs of the tree over values that are numbers.
use radixox.Common.{ℕ, ◌≡◌, refl, List, [], ◌∷◌, Option, none, some, Run, ok, ◌>>=◌}
use radixox.Childs
use radixox.Overflow
use radixox.Arena
use radixox.Expiry
use radixox.Node
use radixox.Tree.{Tree, new, find, descend, traverse_to_key, set_now}
use radixox.Tree.Link.{attach, push_child_idx, remove_child, children, try_recompress}
use radixox.Tree.Insert.{create_node_with_val, split_node, set_internal, set, set_ttl, ensure_key}
use radixox.Tree.Remove.{delete_node_inline, get_idx, get, del}
use radixox.Tree.Clock.{get_ttl, expire, persist}
use radixox.Tests.Concrete.{crates}

program : Unit {0}
unfolding Childs.find Childs.is_full Childs.is_empty Childs.push Childs.remove Childs.iter
    Childs.old_get_single_child Overflow.find Overflow.push Overflow.remove Overflow.is_empty
    Overflow.iter Arena.alloc Arena.free Arena.get Arena.put Expiry.no_expiracy Expiry.exp
    Expiry.does_expire Expiry.set_exp Expiry.set_no_expiracy Expiry.new Expiry.is_expired
    Node.compare_compression_key Node.default Node.is_expired Node.clear_val Node.set_val
    Node.take_val Node.get_value Node.get_overflow_idx Node.new_leaf Node.new_empty_leaf
    Node.has_children Node.get_single_child new find descend traverse_to_key set_now attach
    push_child_idx remove_child children try_recompress create_node_with_val split_node set_internal
    set set_ttl ensure_key delete_node_inline get_idx get del get_ttl expire persist
program = tt

-- "abc", "abd" and "ab"
abbrev abc : List ℕ
abc = 97 ∷ 98 ∷ 99 ∷ []

abbrev abd : List ℕ
abd = 97 ∷ 98 ∷ 100 ∷ []

abbrev ab : List ℕ
ab = 97 ∷ 98 ∷ []

abbrev two : Run (Tree crates)
two = do t ← new; t ← set t abc 1; set t abd 2

abbrev read_all : Tree crates → Run (Option ℕ × Option ℕ × Option ℕ)
read_all t = do (a, t) ← get t abc; (b, t) ← get t abd; (c, t) ← get t ab; ok (a, b, c)

two_read : (two >>= read_all) ≡ ok (some 1, some 2, none)
unfolding program
two_read = refl

abbrev three : Run (Tree crates)
three = do t ← two; t ← set t ab 3; (x, t) ← del t abc; ok t

three_read : (three >>= read_all) ≡ ok (none, some 2, some 3)
unfolding program
three_read = refl

-- Deleting the empty key, which is absent, loses the only other key.
abbrev lost : Run (Option ℕ × Option ℕ)
lost = do t ← new {m = crates}; t ← set t abc 1; (x, t) ← del t []; (a, t) ← get t abc; ok (x, a)

lost_read : lost ≡ ok (none, none)
unfolding program
lost_read = refl
