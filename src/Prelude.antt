-- ===== src/Prelude.antt =====
-- The names that all the other files share: those of the libraries, passed on, and those of the
-- children: tests on numbers, lists, bits, integers and the return codes of the C functions.
mod Tests
mod Lists
mod Bits
mod Order
mod Codes
mod Bytes
mod Range
pub use Tests.*
pub use Lists.*
pub use Bits.*
pub use Codes.*
pub use Bytes.*
unfoldable pub use Range.{holds_below}
pub use Range.{holds_below_lem}
unfoldable pub use Order.{lt_wf}
pub use Prim.Native.Nat.{ℕ, zero, suc, ◌+◌, ◌-◌, ◌*◌, ◌/◌, ◌%◌, ◌^◌, ◌≤◌, ◌<◌, bit_and, bit_or}
pub use Prim.Native.Nat.{bit_xor, min}
pub use mathlib.Core.Path.{◌≡◌, refl, sym, ap, ◌∙◌}
pub use mathlib.Core.Logic.{◌≢◌, ◌↔◌, ◌⊎◌, inl, inr}
pub use mathlib.Core.Bool.{Bool, true, false, not, ◌&&◌, ◌||◌}
pub use mathlib.Core.Option.{Option, none, some}
pub use mathlib.Core.List.{List, [], ◌∷◌, ◌++◌, map, foldl}
pub use native.Mathlib.Omega.{arith}
unfoldable pub use native.Mathlib.Decide.{dec_lt, ℕ_discrete}
