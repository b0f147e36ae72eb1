-- ===== src/Common.antt =====
-- The names that the other modules share: the libraries', passed on, and those of its children
-- (tests on numbers and texts, lists over the native numbers, integers, results, white space,
-- tables, JSON, texts).
mod Tests
mod Lists
mod Int
mod Results
mod Space
mod Sql
mod JsonValue
mod Text
pub use Tests.*
pub use Lists.*
pub use Int.*
pub use Results.*
unfoldable pub use Space.*
unfoldable pub use Sql.*
unfoldable pub use JsonValue.*
unfoldable pub use Text.*
pub use Prim.Native.Nat.{ℕ, zero, suc, ◌+◌, ◌-◌, ◌*◌, ◌/◌, ◌%◌, ◌^◌, ◌≤◌, ◌<◌, min}
pub use Prim.Native.String.{String}
pub use mathlib.Core.Path.{◌≡◌, refl, sym, ap, ◌∙◌, subst}
pub use mathlib.Core.Logic.{◌≢◌, ◌↔◌, ◌⊎◌, inl, inr}
pub use mathlib.Core.Bool.{Bool, true, false, not, ◌&&◌, ◌||◌}
pub use mathlib.Core.Option.{Option, none, some}
pub use mathlib.Core.List.{List, [], ◌∷◌, ◌++◌, map}
pub use native.Mathlib.Omega.{arith}
pub use text.Mathlib.TextEquality.{eq_iff}
pub use text.Mathlib.TextPositions.{eq_refl}
