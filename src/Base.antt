-- ===== src/Base.antt =====
-- Names that the whole development shares: those of the libraries, passed on, and those of its children.
-- Nothing here models a file of the kernel.
mod Tests
mod Lists
mod Words
mod Ints
pub mod Bits
pub mod Digits
pub use Tests.*
unfoldable pub use Lists.*
pub use Ints.{ℤ, incr, decr, is_positive, is_negative}
pub use Ints.ℤ.{pos, negsuc}
pub use Words.*
pub use Prim.Native.Nat.{ℕ, zero, suc, ◌+◌, ◌-◌, ◌*◌, ◌/◌, ◌%◌, ◌^◌, ◌≤◌, ◌<◌, min, max}
pub use Prim.Native.Nat.{bit_and, bit_or, bit_xor}
pub use mathlib.Core.Path.{◌≡◌, refl, sym, ap, ap₂, ◌∙◌, subst}
pub use mathlib.Core.Logic.{◌≢◌, ◌↔◌, ◌⊎◌, inl, inr}
pub use mathlib.Core.Bool.{Bool, true, false, not, ◌&&◌, ◌||◌}
pub use mathlib.Core.Option.{Option, none, some}
pub use mathlib.Core.List.{List, [], ◌∷◌, ◌++◌, map}
pub use native.Mathlib.Omega.{arith}
unfoldable pub use native.Mathlib.Decide.{dec_lt, dec_le, ℕ_discrete}
