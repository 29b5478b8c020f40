-- ===== src/Base.antt =====
-- The names that the other modules share: Python's tests and lists, the libraries' names passed on.
mod Equality
mod Tests
mod Lists
mod Errors
mod Membership
pub mod Distinct
pub mod Table
pub mod Unique
unfoldable pub use Equality.*
pub use Tests.*
unfoldable pub use Lists.*
pub use Errors.*
pub use Membership.*
pub use Prim.Native.Nat.{ℕ, zero, suc, ◌+◌, ◌-◌, ◌*◌, ◌^◌, ◌≤◌, ◌<◌, min, max}
pub use Prim.Native.String.{String, ◌++◌ as ◌<>◌}
pub use mathlib.Core.Path.{◌≡◌, refl, sym, ap, ◌∙◌, subst}
pub use mathlib.Core.Logic.{◌≢◌, ◌↔◌, ◌⊎◌, inl, inr}
pub use mathlib.Core.Bool.{Bool, true, false, ◌&&◌, ◌||◌, not}
pub use mathlib.Core.Option.{Option, none, some}
pub use mathlib.Core.List.{List, [], ◌∷◌, ◌++◌, map}
pub use native.Mathlib.Omega.{arith}
