-- ===== src/Base.antt =====
-- The names that the other modules share: the libraries', passed on, and those of the children.
mod Tests
mod Lists
mod Equality
mod Dict
pub mod Int
pub mod Text
pub mod Split
pub mod Members
pub use Tests.*
pub use Lists.*
pub use Dict.{
  Assoc, lookup-insert, lookup-remove, IsApart, merge_apart, or_else, lookup-append, lookup-keep,
  IsDict, lookup-none_tail, IsDict-insert, IsDict-keep, IsDict-append,
}
unfoldable pub use Dict.{lookup, insert, remove, merge}
pub use Prim.Native.Nat.{ℕ, zero, suc, ◌+◌, ◌-◌, ◌*◌, ◌/◌, ◌%◌, ◌^◌, ◌≤◌, ◌<◌}
pub use Prim.Native.String.{String}
pub use mathlib.Core.Path.{◌≡◌, refl, sym, ap, ◌∙◌, ◌≡⟨◌⟩◌, ◌∎}
pub use mathlib.Core.Logic.{◌≢◌, ◌↔◌, ◌⊎◌, inl, inr}
pub use mathlib.Core.Bool.{Bool, true, false, not, ◌&&◌, ◌||◌}
pub use mathlib.Core.Option.{Option, none, some}
pub use mathlib.Core.List.{List, [], ◌∷◌, ◌++◌, map}
pub use native.Mathlib.Omega.{arith}
pub use Equality.{Eq, ◌==◌, string_eq, text_eq, text_beq, text_beq_iff, beq_refl, beq_sym}
pub use text.Mathlib.TextEquality.{eq_iff}
pub use text.Mathlib.TextPositions.{eq_refl}
