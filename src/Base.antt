-- ===== src/Base.antt =====
-- The names that the modules share: those of the libraries, passed on, and those of the children.
mod Tests
mod Lists
mod Strings
mod Results
pub mod Table
pub mod Value
pub use Tests.*
pub use Lists.*
unfoldable pub use Results.*
pub use Strings.{
  Text, lit, text_eq_sound, text_eq_refl, text_eq_iff, to_lower, lower_idem, to_lower_idem,
  is_word-lower, class_match-to_lower, is_digit, is_lower, is_upper, trim, is_blank,
}
unfoldable pub use Strings.{
  text_eq, includes, starts_with, is_word, lower, class_match, prefix_match, split, upper,
  decimal_digits, contains, trim_start, trim_end,
}
pub use Prim.Native.Nat.{ℕ, zero, suc, ◌+◌, ◌-◌, ◌*◌, ◌/◌, ◌%◌, ◌≤◌, ◌<◌}
pub use mathlib.Core.Path.{◌≡◌, refl, sym, ap, ◌∙◌}
pub use mathlib.Core.Logic.{◌≢◌, ◌↔◌, ◌⊎◌, inl, inr}
pub use mathlib.Core.Bool.{Bool, true, false, not, ◌&&◌, ◌||◌}
pub use mathlib.Core.Option.{Option, none, some}
pub use mathlib.Core.List.{List, [], ◌∷◌, ◌++◌, map}
pub use native.Mathlib.Omega.{arith}
