-- ===== src/Common.antt =====
-- The names that the other modules share: the libraries', passed on, and those of the children.
mod Tests
mod Lists
mod Errors
pub mod Frames
mod Bytes
mod Integers
pub use Tests.*
pub use Lists.*
pub use Bytes.*
pub use Integers.*
unfoldable pub use Bytes.{
  encode_rune, lit, text_eq, contains_byte, after_space, after_space_back, drop_while, trim_space,
  is_blank, utf8_next, utf8_from, valid_utf8,
}
unfoldable pub use Errors.{pure, fail, ◌>>=◌}
pub use Errors.{
  Result, ok, err, Action, ◌>>◌, after, Ends, Triple, Triple-pure, Triple-fail, Triple-if,
  Triple-bind, Triple-mono, Ends-mono, bind_ok, bind_inv, not_ok,
}
pub use Prim.Native.Nat.{ℕ, zero, suc, ◌+◌, ◌-◌, ◌*◌, ◌/◌, ◌%◌, ◌^◌, ◌≤◌, ◌<◌}
pub use mathlib.Core.Path.{◌≡◌, refl, sym, ap, ◌∙◌}
pub use mathlib.Core.Logic.{◌≢◌, ◌↔◌, ◌⊎◌, inl, inr}
pub use mathlib.Core.Bool.{Bool, true, false, not, ◌&&◌, ◌||◌}
pub use mathlib.Core.Option.{Option, none, some}
pub use mathlib.Core.List.{List, [], ◌∷◌, ◌++◌, map}
pub use native.Mathlib.Omega.{arith}
