-- ===== src/Prelude.antt =====
-- The names that every component shares: the libraries', passed on, and those of the children
-- (tests and lists over the native numbers, text, integers, results and actions).
mod Tests
mod Lists
pub mod Text
pub mod Int
pub mod Result
pub mod Exec
pub mod Keeps
pub mod Rows
pub mod Yields
pub mod Leads
pub use Tests.*
pub use Lists.*
pub use Prim.Native.Nat.{ℕ, zero, suc, ◌+◌, ◌-◌, ◌*◌, ◌≤◌, ◌<◌}
pub use mathlib.Core.Path.{◌≡◌, refl, sym, ap, ◌∙◌}
pub use mathlib.Core.Logic.{◌≢◌, ◌↔◌, ◌⊎◌, inl, inr}
pub use mathlib.Core.Bool.{Bool, true, false, not, ◌&&◌, ◌||◌}
pub use mathlib.Core.Option.{Option, none, some}
pub use mathlib.Core.List.{List, [], ◌∷◌, ◌++◌, map}
pub use native.Mathlib.Omega.{arith}
