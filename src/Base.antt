-- ===== src/Base.antt =====
-- Names that every module shares: the libraries', passed on, and those of the children, which
-- hold Boolean tests, lists measured by native numbers, and C's byte strings.
mod Tests
mod Lists
mod Text
mod Words
mod Decimal
mod Stdio
mod Strtol
pub use Tests.*
pub use Lists.*
unfoldable pub use Text.*
pub use Words.*
unfoldable pub use Decimal.*
unfoldable pub use Stdio.*
pub use Strtol.*
pub use Prim.Native.Nat.{ℕ, zero, suc, ◌+◌, ◌-◌, ◌*◌, ◌/◌, ◌%◌, ◌^◌, ◌≤◌, ◌<◌, min}
pub use mathlib.Core.Path.{◌≡◌, refl, sym, ap, ap₂, ◌∙◌, subst}
pub use mathlib.Core.Logic.{◌≢◌, ◌↔◌, ◌⊎◌, inl, inr}
pub use mathlib.Core.Bool.{Bool, true, false, not, ◌&&◌, ◌||◌}
pub use mathlib.Core.Option.{Option, none, some}
pub use mathlib.Core.List.{List, [], ◌∷◌, ◌++◌, map, append-nil, append_assoc}
pub use native.Mathlib.Omega.{arith}
