-- ===== src/Base.antt =====
-- Names that every module shares: the libraries', passed on, and those of the children: Boolean
-- tests, texts, JavaScript numbers, and the list functions behind the SQL statements.
mod Tests
mod Text
mod Rows
mod Unique
mod Ids
mod Uuid
unfoldable pub use Tests.*
unfoldable pub use Text.*
unfoldable pub use Rows.*
unfoldable pub use Unique.*
unfoldable pub use Ids.*
unfoldable pub use Uuid.*
pub use Prim.Native.Nat.{ℕ, zero, suc, ◌+◌, ◌-◌, ◌*◌, ◌/◌, ◌%◌, ◌^◌, ◌≤◌, ◌<◌, min}
pub use Prim.Native.String.{String}
pub use mathlib.Core.Path.{◌≡◌, refl, sym, ap, subst, ◌∙◌}
pub use mathlib.Core.Logic.{◌≢◌, ◌↔◌, ◌⊎◌, inl, inr}
pub use mathlib.Core.Bool.{Bool, true, false, not, ◌&&◌, ◌||◌}
pub use mathlib.Core.Option.{Option, none, some}
pub use mathlib.Core.List.{List, [], ◌∷◌, ◌++◌, map}
pub use native.Mathlib.Omega.{arith}
