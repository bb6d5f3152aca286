-- ===== src/Common.antt =====
-- Names that every module shares: the libraries', passed on, and those of the children: Boolean
-- tests, lists and maps over native numbers, wrapping words, and the outcomes of Go code.
mod Tests
mod Lists
mod Maps
mod Outcome
mod Texts
pub use Tests.*
pub use Lists.*
pub use Maps.*
unfoldable pub use Texts.*
unfoldable pub use Outcome.*
pub use Prim.Native.Nat.{ℕ, zero, suc, ◌+◌, ◌-◌, ◌*◌, ◌/◌, ◌%◌, ◌^◌, ◌≤◌, ◌<◌, min}
pub use mathlib.Core.Path.{◌≡◌, refl, sym, ap, ◌∙◌}
pub use mathlib.Core.Logic.{◌≢◌, ◌↔◌, ◌⊎◌, inl, inr}
pub use mathlib.Core.Bool.{Bool, true, false, ◌&&◌, ◌||◌, not}
pub use mathlib.Core.Option.{Option, none, some}
pub use mathlib.Core.List.{List, [], ◌∷◌, ◌++◌, map}
pub use native.Mathlib.Omega.{arith}
