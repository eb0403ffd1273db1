-- ===== src/Common.antt =====
-- The names that the other modules share: the libraries', passed on, with Boolean tests and list
-- functions over the native numbers, text as a list of characters, and the error type.
mod Tests
mod Lists
mod Errors
mod Text
pub use Tests.*
pub use Lists.*
pub use Errors.*
unfoldable pub use Text.{codes, str_eq}
pub use Text.{Str, str_eq_iff}
pub use Prim.Native.Nat.{ℕ, zero, suc, ◌+◌, ◌-◌, ◌*◌, ◌/◌, ◌%◌, ◌^◌, ◌≤◌, ◌<◌}
pub use mathlib.Core.Path.{◌≡◌, refl, sym, ap, ◌∙◌, subst}
pub use mathlib.Core.Logic.{◌≢◌, ◌↔◌, ◌⊎◌, inl, inr}
pub use mathlib.Core.Bool.{Bool, true, false, not, ◌&&◌, ◌||◌}
pub use mathlib.Core.Option.{Option, none, some}
pub use mathlib.Core.List.{List, [], ◌∷◌, ◌++◌, map, append_assoc, append-nil}
pub use native.Mathlib.Omega.{arith}
