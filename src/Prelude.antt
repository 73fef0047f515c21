-- ===== src/Prelude.antt =====
-- The names that the other modules share: the libraries', passed on, and those of the children.
mod Tests
mod Lists
mod Int
mod Options
mod Text
mod Utf8
pub use Tests.*
pub use Lists.*
pub use Options.*
pub use Int.{ℤ, pos, negsuc, eqb_ℤ, eqb_ℤ_iff, reaches, wrapping_inc-to_i32, to_i32-injective}
pub use Text.{
  is_empty, starts_with_char, starts_with_char-append, is_empty-append, IsShort, show_i32-injective,
}
unfoldable pub use Text.{contains_char, trim_start, trim_end, last_piece, decimal, show_i32}
unfoldable pub use Utf8.{utf8}
unfoldable pub use Int.{to_i32, bits, wrapping_inc}
pub use Prim.Native.Nat.{ℕ, zero, suc, ◌+◌, ◌-◌, ◌*◌, ◌/◌, ◌%◌, ◌^◌, ◌≤◌, ◌<◌, min}
pub use Prim.Native.String.{String}
pub use Prim.Native.String.{◌++◌ as concat}
pub use mathlib.Core.Path.{◌≡◌, refl, sym, ap, subst, fun_ext, ◌∙◌}
pub use mathlib.Core.Logic.{◌≢◌, ◌↔◌, ◌⊎◌, inl, inr}
pub use mathlib.Core.Bool.{Bool, true, false, not, ◌&&◌, ◌||◌}
pub use mathlib.Core.Option.{Option, none, some, get_or as unwrap_or, map as map_option}
pub use mathlib.Core.List.{List, [], ◌∷◌, ◌++◌, map}
pub use native.Mathlib.Omega.{arith}
pub use text.Mathlib.Text.{◌==◌}
pub use text.Mathlib.TextEquality.{eq_iff}
pub use text.Mathlib.TextPositions.{eq_refl}
