-- ===== src/Common.antt =====
-- What every part shares: the libraries' names, Boolean tests on the native numbers, lists measured
-- by them, Python text as lists of code points, and the outcome of code that may raise.
mod Tests
mod Lists
mod Words
pub mod Groups
pub mod Sets
pub mod Integers
pub mod Outcome
pub mod Sorting
pub mod Counters
pub mod Order
pub use Tests.*
unfoldable pub use Lists.*
unfoldable pub use Words.*
pub use Prim.Native.Nat.{ℕ, zero, suc, ◌+◌, ◌-◌, ◌*◌, ◌/◌, ◌%◌, ◌^◌, ◌≤◌, ◌<◌, max}
pub use Prim.Native.String.{String}
pub use mathlib.Core.Path.{◌≡◌, refl, sym, ap, subst, ◌∙◌}
pub use mathlib.Core.Logic.{◌≢◌, ◌↔◌, ◌⊎◌, inl, inr}
pub use mathlib.Core.Bool.{Bool, true, false, not, ◌&&◌, ◌||◌}
pub use mathlib.Core.Option.{Option, none, some}
pub use mathlib.Core.List.{List, [], ◌∷◌, ◌++◌, map, append-nil, append_assoc}
pub use native.Mathlib.Omega.{arith}
