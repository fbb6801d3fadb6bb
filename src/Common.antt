-- ===== src/Common.antt =====
-- The names that all parts share: the libraries', passed on, and those of eight children.
mod Tests
mod Lists
mod Panic
mod Assoc
mod Decimal
mod Int
mod Bytes
mod Text
pub use Tests.*
pub use Lists.*
pub use Panic.*
pub use Assoc.*
unfoldable pub use Decimal.*
unfoldable pub use Int.*
pub use Bytes.*
pub use Text.*
pub use Prim.Native.Nat.{ℕ, zero, suc, ◌+◌, ◌-◌, ◌*◌, ◌/◌, ◌%◌, ◌^◌, ◌≤◌, ◌<◌, min, max}
pub use mathlib.Core.Path.{◌≡◌, refl, sym, ap, ◌∙◌, subst, subst₂, fun_ext}
pub use mathlib.Core.Logic.{◌≢◌, ◌↔◌, ◌⊎◌, inl, inr}
pub use mathlib.Core.Bool.{Bool, true, false, not, ◌&&◌, ◌||◌}
pub use mathlib.Core.Option.{Option, none, some}
pub use mathlib.Core.List.{List, [], ◌∷◌, ◌++◌, map, append_assoc, append-nil}
pub use native.Mathlib.Omega.{arith}
