-- ===== src/Common.antt =====
-- What the components share: the libraries' names passed on, Boolean tests, the conditional,
-- lists measured by native numbers, the array methods of the language and its stable sort.
mod Branching
mod Lists
mod Sort
mod Results
mod Texts
mod Objects
mod Unique
mod Flat
pub use Branching.*
pub use Lists.*
pub use Sort.*
pub use Results.*
pub use Texts.*
pub use Objects.*
pub use Unique.*
pub use Flat.*
pub use Prim.Native.Nat.{ℕ, zero, suc, ◌+◌, ◌-◌, ◌*◌, ◌/◌, ◌%◌, ◌^◌, ◌≤◌, ◌<◌}
pub use Prim.Native.String.{String}
pub use mathlib.Core.Path.{◌≡◌, refl, sym, ap, ◌∙◌}
pub use mathlib.Core.Logic.{◌≢◌, ◌↔◌, ◌⊎◌, inl, inr}
pub use mathlib.Core.Bool.{Bool, true, false, not, ◌&&◌, ◌||◌}
pub use mathlib.Core.Option.{Option, none, some}
pub use mathlib.Core.List.{List, [], ◌∷◌, ◌++◌, map, Mem, Perm}
pub use native.Mathlib.Omega.{arith}
unfoldable pub use text.Mathlib.Text.{◌==◌}
pub use text.Mathlib.TextEquality.{eq_iff}
pub use text.Mathlib.TextPositions.{eq_refl}
