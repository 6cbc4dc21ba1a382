-- ===== src/Prelude.antt =====
-- The names that every module shares: the library's, passed on, and those of the children
-- (Boolean tests, lists and tables, integers and money, and the action monad of a service).
mod Tests
mod Lists
mod Int
mod Effects
mod Keeping
mod Table
mod History
mod Reference
pub use Tests.*
pub use Lists.*
pub use Int.*
unfoldable pub use Int.{◌+ℤ◌, ◌-ℤ◌, round2, of_cents}
pub use Effects.*
pub use Keeping.*
pub use Table.*
pub use History.*
pub use Reference.*
unfoldable pub use Reference.{draw_unique}
pub use Prim.Native.Nat.{ℕ, zero, suc, ◌+◌, ◌-◌, ◌*◌, ◌/◌, ◌%◌, ◌^◌, ◌≤◌, ◌<◌}
pub use mathlib.Core.Path.{◌≡◌, refl, sym, ap, subst, ◌∙◌}
pub use mathlib.Core.Logic.{◌≢◌, ◌↔◌, ◌⊎◌, inl, inr}
pub use mathlib.Core.Bool.{Bool, true, false, not, ◌&&◌, ◌||◌}
pub use mathlib.Core.Option.{Option, none, some}
pub use mathlib.Core.List.{List, [], ◌∷◌, ◌++◌, map}
pub use native.Mathlib.Omega.{arith}
