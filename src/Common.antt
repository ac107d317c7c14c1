-- ===== src/Common.antt =====
-- The names that the components share: the libraries', passed on, and those of the children, which
-- model the parts of Go that the source uses (strings, strconv, int).
mod Tests
mod Lists
mod Texts
mod Ints
mod Decimal
mod Fields
pub use Tests.*
pub use Lists.*
unfoldable pub use Texts.*
unfoldable pub use Ints.*
unfoldable pub use Fields.*
unfoldable pub use Decimal.*
pub use Prim.Native.Nat.{ℕ, zero, suc, ◌+◌, ◌-◌, ◌*◌, ◌/◌, ◌%◌, ◌^◌, ◌≤◌, ◌<◌}
pub use mathlib.Core.Path.{◌≡◌, refl, sym, ap, ◌∙◌, subst}
pub use mathlib.Core.Logic.{◌≢◌, ◌↔◌, ◌⊎◌, inl, inr}
pub use mathlib.Core.Bool.{Bool, true, false, not, ◌&&◌, ◌||◌}
pub use mathlib.Core.Option.{Option, none, some}
pub use mathlib.Core.List.{
  List, [], ◌∷◌, ◌++◌, map, reverse, append-nil, append_assoc, reverse-append, reverse-reverse,
}
pub use native.Mathlib.Omega.{arith}
