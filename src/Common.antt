-- ===== src/Common.antt =====
-- What the models share: library names passed on, tests on numbers and bytes, lists measured by
-- native numbers, and the `int` values that the sources compare with zero.
mod Tests
mod Lists
mod Text
mod Int
mod Errors
mod Maps
mod Scan
pub use Tests.*
pub use Lists.*
pub use Text.*
pub use Int.*
pub use Errors.*
pub use Maps.*
unfoldable pub use Scan.*
pub use Prim.Native.Nat.{ℕ, zero, suc, ◌+◌, ◌-◌, ◌*◌, ◌/◌, ◌%◌, ◌^◌, ◌≤◌, ◌<◌}
pub use mathlib.Core.Path.{◌≡◌, refl, sym, ap, ◌∙◌, subst}
pub use mathlib.Core.Logic.{◌≢◌, ◌↔◌, ◌⊎◌, inl, inr}
pub use mathlib.Core.Bool.{Bool, true, false, not, ◌&&◌, ◌||◌}
pub use mathlib.Core.Option.{Option, none, some}
pub use mathlib.Core.List.{List, [], ◌∷◌, ◌++◌, map}
pub use native.Mathlib.Omega.{arith}
