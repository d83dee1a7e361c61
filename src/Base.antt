-- ===== src/Base.antt =====
-- The names that the components share: the libraries', passed on, and those of the children:
-- tests on numbers, lists and bytes with native indices, and the integers.
mod Tests
mod Lists
mod CString
mod Search
pub mod Int
pub mod Decimal
pub mod Bits
pub mod Passes
unfoldable pub use Tests.*
unfoldable pub use Lists.*
unfoldable pub use CString.*
unfoldable pub use Search.*
pub use Prim.Native.Nat.{
  ℕ, zero, suc, ◌+◌, ◌-◌, ◌*◌, ◌/◌, ◌%◌, ◌^◌, ◌≤◌, ◌<◌, bit_and, bit_or, bit_xor, min,
}
pub use mathlib.Core.Path.{◌≡◌, refl, sym, ap, subst, ◌∙◌}
pub use mathlib.Core.Logic.{◌≢◌, ◌↔◌, ◌⊎◌, inl, inr}
pub use mathlib.Core.Bool.{Bool, true, false, not, ◌&&◌, ◌||◌}
pub use mathlib.Core.Option.{Option, none, some}
pub use mathlib.Core.List.{List, [], ◌∷◌, ◌++◌, map, append-nil, append_assoc}
pub use native.Mathlib.Omega.{arith}
unfoldable pub use native.Mathlib.Decide.{dec_lt, ℕ_discrete}
