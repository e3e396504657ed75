-- ===== src/Common.antt =====
-- The names that the other modules share: those of the libraries, passed on, and those of the
-- children (Boolean tests, lists by native index, signed integers, masks, error numbers, BUG_ON,
-- linked lists).
pub mod Tests
pub mod Lists
pub mod Int
pub mod Bits
pub mod Xor
pub mod Or
pub mod Bug
pub mod Links
pub mod Errno
pub use Prim.Native.Nat.{ℕ, zero, suc, ◌+◌, ◌-◌, ◌*◌, ◌/◌, ◌%◌, ◌^◌, ◌≤◌, ◌<◌, min}
pub use mathlib.Core.Path.{◌≡◌, refl, sym, ap, ap₂, ◌∙◌, subst, fun_ext}
pub use mathlib.Core.Logic.{◌≢◌, ◌↔◌, ◌⊎◌, inl, inr}
pub use mathlib.Core.Bool.{Bool, true, false, ◌&&◌, ◌||◌, not}
pub use mathlib.Core.Option.{Option, none, some}
pub use mathlib.Core.List.{List, [], ◌∷◌, ◌++◌, map}
pub use native.Mathlib.Omega.{arith}
pub use mathlib.Core.List.{append-nil, append_assoc}
unfoldable pub use native.Mathlib.Decide.{dec_lt, ℕ_discrete}
