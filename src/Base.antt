-- ===== src/Base.antt =====
-- What the modules of the development share: names of the libraries, Boolean tests, lists measured
-- by native numbers, `size_t` arithmetic and the outcome of a C function.
mod Tests
mod Lists
mod Memory
mod Words
mod Moves
mod Bits
mod Places
pub use Tests.*
pub use Lists.*
unfoldable pub use Memory.*
pub use Words.*
pub use Moves.*
pub use Bits.*
pub use Places.*
pub use Prim.Native.Nat.{ℕ, zero, suc, ◌+◌, ◌-◌, ◌*◌, ◌/◌, ◌%◌, ◌^◌, ◌≤◌, ◌<◌, min}
pub use mathlib.Core.Path.{◌≡◌, refl, sym, ap, ap₂, ◌∙◌}
pub use mathlib.Core.Logic.{◌≢◌, ◌↔◌, ◌⊎◌, inl, inr}
pub use mathlib.Core.Bool.{Bool, true, false, not, ◌&&◌, ◌||◌}
pub use mathlib.Core.Option.{Option, none, some}
pub use mathlib.Core.List.{List, [], ◌∷◌, ◌++◌, map, append-nil, append_assoc}
pub use native.Mathlib.Omega.{arith}
