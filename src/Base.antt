-- ===== src/Base.antt =====
-- Names shared by all modules: the library's, passed on, and those of the children `Tests` (Boolean
-- tests, case lemmas) and `Lists` (lists over the native numbers). `Bits`, `Order` and `Int` are used
-- by their names.
mod Tests
mod Lists
pub mod Bits
pub mod Order
pub mod Int
pub mod Equality
pub use Tests.*
pub use Lists.*
pub use Prim.Native.Nat.{ℕ, zero, suc, ◌+◌, ◌-◌, ◌*◌, ◌/◌, ◌%◌, ◌^◌, ◌≤◌, ◌<◌, max}
pub use Prim.Native.Nat.{bit_or, bit_xor}
pub use mathlib.Core.Path.{◌≡◌, refl, sym, ap, ◌∙◌}
pub use mathlib.Core.Logic.{◌≢◌, ◌↔◌, ◌⊎◌, inl, inr}
pub use mathlib.Core.Bool.{Bool, true, false, ◌&&◌, ◌||◌, not}
pub use mathlib.Core.Option.{Option, none, some}
pub use mathlib.Core.List.{List, [], ◌∷◌, ◌++◌, append_assoc, append-nil}
pub use native.Mathlib.Omega.{arith}
