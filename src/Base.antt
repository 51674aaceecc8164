-- ===== src/Base.antt =====
-- The names that all modules share: the libraries' own, passed on, and the helpers of the
-- modules below (tests, lists, fixed-size arrays, binary digits, results).
mod Tests
mod Lists
mod Copy
mod Bits
mod Outcome
unfoldable pub use Tests.*
pub use Lists.*
pub use Copy.*
unfoldable pub use Bits.*
pub use Outcome.*
pub use Prim.Native.Nat.{
  ℕ, zero, suc, ◌+◌, ◌-◌, ◌*◌, ◌/◌, ◌%◌, ◌^◌, ◌≤◌, ◌<◌, min, max, bit_and, bit_or,
}
pub use mathlib.Core.Path.{◌≡◌, refl, sym, ap, ◌∙◌}
pub use mathlib.Core.Logic.{◌≢◌, ◌↔◌, ◌⊎◌, inl, inr}
pub use mathlib.Core.Bool.{Bool, true, false, not, ◌&&◌, ◌||◌}
pub use mathlib.Core.Option.{Option, none, some}
pub use mathlib.Core.List.{List, [], ◌∷◌, ◌++◌, map}
pub use native.Mathlib.Omega.{arith}
