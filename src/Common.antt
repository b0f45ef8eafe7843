-- ===== src/Common.antt =====
-- Names that every part shares: the libraries' names passed on, Boolean tests, lists over the
-- native numbers, signed 64-bit integers, text, Go maps and the clock.
mod Tests
mod Lists
mod Int
mod Text
mod Clock
mod Fallible
mod Maps
mod Order
pub use Tests.*
pub use Lists.*
pub use Int.*
unfoldable pub use Text.*
pub use Clock.*
pub use Fallible.*
pub use Maps.*
pub use Order.*
pub use Prim.Native.Nat.{ℕ, zero, suc, ◌+◌, ◌-◌, ◌*◌, ◌/◌, ◌%◌, ◌^◌, ◌≤◌, ◌<◌, min}
pub use Prim.Native.String.{String}
pub use text.Mathlib.TextEquality.{eq_iff}
pub use mathlib.Core.Path.{◌≡◌, refl, sym, ap, ◌∙◌}
pub use mathlib.Core.Logic.{◌≢◌, ◌↔◌, ◌⊎◌, inl, inr}
pub use mathlib.Core.Bool.{Bool, true, false, not, ◌&&◌, ◌||◌}
pub use mathlib.Core.Option.{Option, none, some}
pub use mathlib.Core.List.{List, [], ◌∷◌, ◌++◌, map}
pub use native.Mathlib.Omega.{arith}
