-- ===== src/Base.antt =====
-- The names that the other modules share: the libraries' names passed on, and the children's.
mod Tests
mod Lists
mod Text
mod Maps
pub mod Int64
pub mod Window
pub use Tests.*
pub use Lists.*
pub use Text.{◌==◌, eq_refl, str_append, len, differ}
unfoldable pub use Text.{trim_space, is_hex, hex_value, hex_number, decimal, padded}
pub use Text.Numbers.{padded-injective}
pub use text.Mathlib.TextLemmas.{append_cancel_left}
pub use Maps.{Dict, is_some, contains, or_else, lookup-insert, lookup-delete, lookup-insert_self}
pub use Maps.{
  lookup-insert_ne, lookup-insert_fresh, insert-cases, lookup-insert_still, lookup-delete_self,
  value-insert, value-insert_self,
}
unfoldable pub use Maps.{lookup, insert, delete, value}
pub use Prim.Native.Nat.{ℕ, zero, suc, ◌+◌, ◌-◌, ◌*◌, ◌/◌, ◌%◌, ◌^◌, ◌≤◌, ◌<◌}
pub use Prim.Native.String.{String}
pub use mathlib.Core.Path.{◌≡◌, refl, sym, ap, ap₂, ◌∙◌, subst}
pub use mathlib.Core.Logic.{◌≢◌, ◌↔◌, ◌⊎◌, inl, inr}
pub use mathlib.Core.Bool.{Bool, true, false, not, ◌&&◌, ◌||◌}
pub use mathlib.Core.Option.{Option, none, some}
pub use mathlib.Core.List.{List, [], ◌∷◌, ◌++◌, map}
pub use mathlib.Core.List.{append-nil, append_assoc}
pub use native.Mathlib.Omega.{arith}
pub use text.Mathlib.TextEquality.{eq_iff}
