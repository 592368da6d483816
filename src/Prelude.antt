-- ===== src/Prelude.antt =====
-- The names that the other modules share: the libraries', passed on, and those of some children.
mod Tests
pub mod Sets
pub mod Sorting
pub mod Updates
mod Lists
pub mod Text
pub mod Json
pub mod Int
pub use Tests.*
pub use Lists.*
unfoldable pub use Lists.{any_of, all_of, keep_if, find_if, count_if, update_if}
pub use Prim.Native.Nat.{ℕ, zero, suc, ◌+◌, ◌-◌, ◌*◌, ◌≤◌, ◌<◌}
pub use Prim.Native.String.{String}
pub use mathlib.Core.Path.{◌≡◌, refl, sym, ap, subst, ◌∙◌}
pub use mathlib.Core.Logic.{◌≢◌, ◌↔◌, ◌⊎◌, inl, inr}
pub use mathlib.Core.Bool.{Bool, true, false, not, ◌&&◌, ◌||◌}
pub use mathlib.Core.Option.{Option, none, some}
pub use mathlib.Core.List.{List, [], ◌∷◌, ◌++◌, map}
pub use native.Mathlib.Omega.{arith}
pub use text.Mathlib.Text.{◌==◌}
pub use text.Mathlib.TextEquality.{eq_iff}
