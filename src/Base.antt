-- ===== src/Base.antt =====
-- Names that every component shares: the libraries', passed on, and those of the children.
mod BitLaws
mod Bits
mod Lists
mod Options
mod Space
mod Tables
mod Tests
mod Words
pub use BitLaws.*
unfoldable pub use Bits.*
pub use Lists.*
pub use Options.*
pub use Space.*
unfoldable pub use Tables.*
pub use Tests.*
pub use Words.*
pub use Prim.Native.Nat.{ℕ, zero, suc, ◌+◌, ◌-◌, ◌*◌, ◌/◌, ◌%◌, ◌^◌, ◌≤◌, ◌<◌, min, max}
pub use Prim.Native.Nat.{bit_and, bit_or, bit_xor}
pub use mathlib.Core.Path.{◌≡◌, refl, sym, ap, ◌∙◌, fun_ext}
pub use mathlib.Core.Logic.{◌≢◌, ◌↔◌, ◌⊎◌, inl, inr}
pub use mathlib.Core.Bool.{Bool, true, false, not, ◌&&◌, ◌||◌}
pub use mathlib.Core.Option.{Option, none, some}
pub use mathlib.Core.List.{List, [], ◌∷◌, ◌++◌, map}
pub use native.Mathlib.Omega.{arith}
