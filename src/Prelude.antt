-- ===== src/Prelude.antt =====
-- The names that the other modules share: the library's, passed on, and those of the children.
pub mod Tests
pub mod Lists
pub mod Positions
pub mod Strings
pub mod Calendar
pub mod Int
pub mod Outcome
pub use Tests.*
pub use Lists.*
unfoldable pub use Lists.{slice}
unfoldable pub use Positions.{splice}
pub use Positions.{get_elem?-append, get_elem?-slice, get_elem?-splice, length-splice}
unfoldable pub use Strings.{lit, text_eq, starts_with, decimal}
pub use Int.*
unfoldable pub use Calendar.{year_of}
pub use Calendar.{Datetime}
pub use Strings.{Text, text_eq_iff, text_eq_refl}
pub use Outcome.*
pub use Prim.Native.Nat.{ℕ, zero, suc, ◌+◌, ◌-◌, ◌*◌, ◌/◌, ◌%◌, ◌^◌, ◌≤◌, ◌<◌, min}
pub use Prim.Native.String.{String}
pub use mathlib.Core.Path.{◌≡◌, refl, sym, ap, ◌∙◌}
pub use mathlib.Core.Logic.{◌≢◌, ◌↔◌, ◌⊎◌, inl, inr}
pub use mathlib.Core.Bool.{Bool, true, false, not, ◌&&◌, ◌||◌}
pub use mathlib.Core.Option.{Option, none, some}
pub use mathlib.Core.List.{List, [], ◌∷◌, ◌++◌, map}
pub use native.Mathlib.Omega.{arith}
