-- ===== src/Base.antt =====
-- The names that every module shares: library names passed on, Boolean tests on the native
-- numbers, tables keyed by an identifier, and results that may carry a raised error.
mod Tests
mod Scopes
pub mod Texts
pub mod Table
pub mod Unique
pub mod Grows
pub mod Ensures
pub use Tests.*
pub use Scopes.*
pub use Prim.Native.Nat.{ℕ, zero, suc, ◌+◌, ◌-◌, ◌≤◌, ◌<◌}
pub use mathlib.Core.Path.{◌≡◌, refl, sym, ap, ◌∙◌, subst}
pub use mathlib.Core.Logic.{◌≢◌, ◌⊎◌, inl, inr}
pub use mathlib.Core.Bool.{Bool, true, false, not, ◌&&◌, ◌||◌}
pub use mathlib.Core.Option.{Option, none, some}
pub use mathlib.Core.List.{List, [], ◌∷◌}
pub use native.Mathlib.Omega.{arith}
