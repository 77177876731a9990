-- ===== src/Base.antt =====
-- The names that the other modules share: the libraries', passed on, and those of the children.
mod Tests
mod Lists
mod Int
mod Strings
mod Decimal
pub mod SortedMap
pub use Tests.*
pub use Lists.*
unfoldable pub use Int.*
unfoldable pub use Strings.{bytes_eq, bytes_lt, find_in}
pub use Strings.{
  Bytes, codes, Avoids, bytes_eq_iff, bytes_eq_refl, bytes_eq_sound, bytes_lt_irrefl,
  bytes_lt_trans,
}
pub use Prim.Native.Nat.{ℕ, zero, suc, ◌+◌, ◌-◌, ◌*◌, ◌/◌, ◌%◌, ◌^◌, ◌≤◌, ◌<◌}
pub use Decimal.{
  Digits, IsDigit, read_decimal, read_decimal-to_string, show_int, to_string-Digits, to_string_pos,
}
unfoldable pub use Decimal.{to_string}
pub use mathlib.Core.Path.{◌≡◌, refl, sym, ap, ap₂, subst, ◌∙◌}
pub use mathlib.Core.Logic.{◌≢◌, ◌↔◌, ◌⊎◌, inl, inr}
pub use mathlib.Core.Bool.{Bool, true, false, not, ◌&&◌, ◌||◌}
pub use mathlib.Core.Option.{Option, none, some}
pub use mathlib.Core.List.{List, [], ◌∷◌, ◌++◌, map, append-nil, append_assoc}
pub use native.Mathlib.Omega.{arith}
