-- ===== src/Tests/Concrete.antt =====
-- The crates as concrete data: bounded slabs and vectors.
use radixox.Common.{ℕ}
use radixox.Slab.Bounded.{slots, tagged_slots}
use radixox.Overflow.Vector.{bounded_list}
use radixox.Overflow.{Huge}
use radixox.Node.{Node}
use radixox.Tree.{Crates}

abbrev pub huge : Huge
huge = record { vec = bounded_list (ℕ × ℕ) 121; slab = slots _ }

abbrev pub crates : Crates ℕ
crates = record { huge = huge; nodes = tagged_slots (Node ℕ) }
