-- ===== src/Prelude.antt =====
-- Shared notation: the library names that every component uses, Boolean tests on numbers, lists over
-- the native numbers, and the integers of a signed countdown.
mod Tests
mod Lists
mod Queries
mod Sort
pub mod Int
pub use Tests.*
pub use Lists.*
pub use Queries.*
unfoldable pub use Sort.{order_by}
pub use Sort.{All-order_by, any_of-order_by, length-order_by}
pub use Prim.Native.Nat.{ℕ, zero, suc, ◌+◌, ◌-◌, ◌*◌, ◌/◌, ◌%◌, ◌≤◌, ◌<◌}
pub use Prim.Native.String.{String}
pub use mathlib.Core.Path.{◌≡◌, refl, sym, ap, ◌∙◌, subst}
pub use mathlib.Core.Logic.{◌≢◌, ◌↔◌, ◌⊎◌, inl, inr}
pub use mathlib.Core.Bool.{Bool, true, false, not, ◌&&◌, ◌||◌}
pub use mathlib.Core.Option.{Option, none, some}
pub use mathlib.Core.List.{List, [], ◌∷◌, ◌++◌, map}
pub use native.Mathlib.Omega.{arith}
