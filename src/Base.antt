-- ===== src/Base.antt =====
-- The names that every component shares: library names passed on, Boolean tests on machine words,
-- C arrays as lists, and three children: comparison of 32-bit floats, byte strings of packed
-- structures, and the status codes of the audio framework.
mod Tests
mod Lists
pub mod Float
pub mod Bytes
pub mod Decimal
pub mod Line
pub mod Status
pub use Tests.*
unfoldable pub use Lists.*
pub use Prim.Native.Nat.{ℕ, zero, suc, ◌+◌, ◌-◌, ◌*◌, ◌/◌, ◌%◌, ◌^◌, ◌≤◌, ◌<◌, min}
pub use mathlib.Core.Path.{◌≡◌, refl, sym, ap, ◌∙◌}
pub use mathlib.Core.Logic.{◌≢◌, ◌↔◌, ◌⊎◌, inl, inr}
pub use mathlib.Core.Bool.{Bool, true, false, not, ◌&&◌, ◌||◌}
pub use mathlib.Core.Option.{Option, none, some}
pub use mathlib.Core.List.{List, [], ◌∷◌, ◌++◌, map, append-nil, append_assoc}
pub use native.Mathlib.Omega.{arith}
