-- ===== src/Prelude.antt =====
-- The names and small helpers that every component shares: the libraries', passed on, Boolean
-- tests on native numbers and on texts, and lists filtered by a test.
mod Tests
mod Lists
mod Members
mod Keyed
mod Sorting
mod Everywhere
pub use Tests.*
pub use Lists.*
pub use Members.*
pub use Keyed.*
pub use Sorting.*
pub use Everywhere.*
pub use Prim.Native.Nat.{ℕ, zero, suc, ◌+◌, ◌-◌, ◌*◌, ◌/◌, ◌%◌, ◌^◌, ◌≤◌, ◌<◌, max, min}
pub use Prim.Native.String.{String}
pub use mathlib.Core.Path.{◌≡◌, refl, sym, ap, ◌∙◌}
pub use mathlib.Core.Logic.{◌≢◌, ◌↔◌, ◌⊎◌, inl, inr}
pub use mathlib.Core.Bool.{Bool, true, false, not, ◌&&◌, ◌||◌}
pub use mathlib.Core.Option.{Option, none, some}
pub use mathlib.Core.List.{List, [], ◌∷◌, ◌++◌, map, Memᴰ}
pub use native.Mathlib.Omega.{arith}
pub use text.Mathlib.TextEquality.{eq_iff}
