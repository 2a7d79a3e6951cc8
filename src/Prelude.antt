-- ===== src/Prelude.antt =====
-- Shared names: the library's, passed on, and Boolean tests, native list lengths and string-keyed
-- records, which the program's modules use throughout.
pub mod Text
pub mod JsText
mod Tests
mod Lists
mod Records
mod Indexes
mod Entries
pub use Tests.*
pub use Lists.*
unfoldable pub use Records.{lookup, insert, erase, assign, values}
pub use Records.*
unfoldable pub use Indexes.{index_by}
pub use Indexes.*
pub use Entries.*
pub use Prim.Native.Nat.{ℕ, zero, suc, ◌+◌, ◌-◌, ◌*◌, ◌/◌, ◌%◌, ◌≤◌, ◌<◌, max, min}
pub use Prim.Native.String.{String}
pub use mathlib.Core.Path.{◌≡◌, refl, sym, ap, subst, ◌∙◌}
pub use mathlib.Core.Logic.{◌≢◌, ◌↔◌, ◌⊎◌, inl, inr}
pub use mathlib.Core.Bool.{Bool, true, false, ◌&&◌, ◌||◌, not}
pub use mathlib.Core.Option.{Option, none, some}
pub use mathlib.Core.List.{List, [], ◌∷◌, ◌++◌, map}
pub use native.Mathlib.Omega.{arith}
pub use text.Mathlib.Text.{◌==◌}
pub use text.Mathlib.TextEquality.{eq_iff}
pub use text.Mathlib.TextPositions.{eq_refl}
