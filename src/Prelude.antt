-- ===== src/Prelude.antt =====
-- The names that the other modules share: the libraries' names passed on, tests on numbers, lists
-- measured by native numbers. No code of the repository is modelled here.
mod Tests
mod Lists
mod Sort
mod Slices
mod Integers
pub use Tests.*
pub use Lists.*
pub use Slices.*
pub use Integers.{ℤ, pos, negsuc}
unfoldable pub use Integers.{is_negative, is_at_most_zero, is_above}
unfoldable pub use Sort.*
pub use Prim.Native.Nat.{ℕ, zero, suc, ◌+◌, ◌-◌, ◌*◌, ◌/◌, ◌%◌, ◌≤◌, ◌<◌, compare, Ordering}
pub use mathlib.Core.Path.{◌≡◌, refl, sym, ap, subst, ◌∙◌}
pub use mathlib.Core.Logic.{◌≢◌, ◌↔◌, ◌⊎◌, inl, inr}
pub use mathlib.Core.Bool.{Bool, true, false, ◌&&◌, ◌||◌, not}
pub use mathlib.Core.Option.{Option, none, some}
pub use mathlib.Core.List.{List, [], ◌∷◌, ◌++◌, map, append_assoc, append-nil}
pub use native.Mathlib.Omega.{arith}
