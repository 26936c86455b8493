-- ===== src/Prelude.antt =====
-- The names that every module shares: the libraries', passed on, and those of the children.
mod Tests
pub mod Partial
mod Lists
mod Bytes
mod Sorting
mod Dict
mod Errors
mod Int
mod Documents
unfoldable pub use Tests.*
unfoldable pub use Lists.*
unfoldable pub use Dict.*
unfoldable pub use Sorting.*
unfoldable pub use Bytes.*
unfoldable pub use Errors.*
unfoldable pub use Int.*
unfoldable pub use Documents.*
pub use Prim.Native.Nat.{ℕ, zero, suc, ◌+◌, ◌-◌, ◌*◌, ◌/◌, ◌%◌, ◌^◌, ◌≤◌, ◌<◌, min}
pub use Prim.Native.String.{String}
pub use mathlib.Core.Path.{◌≡◌, refl, sym, ap, subst, ◌∙◌}
pub use mathlib.Core.Logic.{◌≢◌, ◌↔◌, ◌⊎◌, inl, inr}
pub use mathlib.Core.Bool.{Bool, true, false, not, ◌&&◌, ◌||◌}
pub use mathlib.Core.Option.{Option, none, some}
pub use mathlib.Core.List.{List, [], ◌∷◌, ◌++◌, map}
pub use native.Mathlib.Omega.{arith}
