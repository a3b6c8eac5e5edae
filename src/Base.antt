-- ===== src/Base.antt =====
-- What every module shares: names of the libraries, Boolean tests, results, texts and maps.
pub mod Tests
mod Outcome
pub mod Dict
pub mod Lists
pub mod Sort
pub mod Texts
pub mod Trimming
pub mod Decimal
pub mod Paths
pub mod Exec
pub mod Partial
pub mod Replace
unfoldable pub use Tests.*
unfoldable pub use Outcome.*
unfoldable pub use Lists.*
unfoldable pub use Texts.*
pub use Prim.Native.Nat.{ℕ, zero, suc, ◌+◌, ◌-◌, ◌*◌, ◌/◌, ◌%◌, ◌^◌, ◌≤◌, ◌<◌}
pub use Prim.Native.Char.{Char, code}
pub use Prim.Native.String.{String, ◌++◌ as ◌<>◌}
pub use mathlib.Core.Path.{◌≡◌, refl, sym, ap, ◌∙◌}
pub use mathlib.Core.Logic.{◌≢◌, ◌↔◌, ◌⊎◌, inl, inr}
pub use mathlib.Core.Bool.{Bool, true, false, not, ◌&&◌, ◌||◌}
pub use mathlib.Core.Option.{Option, none, some}
pub use mathlib.Core.List.{List, [], ◌∷◌, ◌++◌, map}
pub use native.Mathlib.Omega.{arith}
pub use text.Mathlib.Text.{starts_with}
