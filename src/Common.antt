-- ===== src/Common.antt =====
-- The names that every component shares: the libraries' names passed on, Boolean tests on native
-- numbers, lists measured by native numbers, integers, and the result type of the services.
mod Tests
mod Lists
mod Results
mod Decimal
mod Strings
mod Values
mod Sorting
mod Updates
pub mod Int
pub use Tests.*
pub use Lists.*
pub use Results.*
unfoldable pub use Decimal.*
unfoldable pub use Strings.*
pub use Values.*
pub use Sorting.*
pub use Updates.*
pub use Prim.Native.Nat.{ℕ, zero, suc, ◌+◌, ◌-◌, ◌*◌, ◌/◌, ◌%◌, ◌^◌, ◌≤◌, ◌<◌, min, max}
pub use mathlib.Core.Path.{◌≡◌, refl, sym, ap, ◌∙◌, subst}
pub use mathlib.Core.Logic.{◌≢◌, ◌↔◌, ◌⊎◌, inl, inr}
pub use mathlib.Core.Bool.{Bool, true, false, ◌&&◌, ◌||◌, not}
pub use mathlib.Core.Option.{Option, none, some}
pub use mathlib.Core.List.{List, [], ◌∷◌, ◌++◌, map}
pub use native.Mathlib.Omega.{arith}
