-- ===== src/Common.antt =====
-- What the models share: names of the libraries passed on, Boolean tests, lists measured by native
-- numbers, dictionaries with text keys, stable sorting, and the values of `json.loads`.
mod Tests
mod Lists
mod Bind
pub mod Codes
pub mod Dict
pub mod Distinct
pub mod Sort
pub mod Json
pub mod Orders
pub use Tests.*
pub use Lists.*
pub use Bind.*
pub use Prim.Native.Nat.{ℕ, zero, suc, ◌+◌, ◌-◌, ◌*◌, ◌/◌, ◌≤◌, ◌<◌, min, max}
pub use Prim.Native.String.{String}
pub use mathlib.Core.Path.{◌≡◌, refl, sym, ap, ◌∙◌}
pub use mathlib.Core.Logic.{◌≢◌, ◌↔◌, ◌⊎◌, inl, inr}
pub use mathlib.Core.Bool.{Bool, true, false, not, ◌&&◌, ◌||◌}
pub use mathlib.Core.Option.{Option, none, some}
pub use mathlib.Core.List.{List, [], ◌∷◌, ◌++◌, map}
pub use native.Mathlib.Omega.{arith}
pub use text.Mathlib.Text.{◌==◌}
pub use text.Mathlib.TextEquality.{eq_iff}
pub use text.Mathlib.TextPositions.{eq_refl}
