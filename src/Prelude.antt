-- ===== src/Prelude.antt =====
-- The names that the other modules share: numbers, lists, tests and their lemmas.
mod Tests
mod Lists
mod Order
pub mod BitOr
pub use Tests.*
pub use Lists.*
unfoldable pub use Order.{lt_wf}
pub use Prim.Native.Nat.{ℕ, zero, suc, ◌+◌, ◌-◌, ◌*◌, ◌/◌, ◌%◌, ◌^◌, ◌≤◌, ◌<◌, min, max}
pub use mathlib.Core.Path.{◌≡◌, refl, sym, ap, ◌∙◌, subst, fun_ext}
pub use mathlib.Core.Logic.{◌≢◌, ◌↔◌, ◌⊎◌, inl, inr}
pub use mathlib.Core.Bool.{Bool, true, false, not, ◌&&◌, ◌||◌}
pub use mathlib.Core.Option.{Option, none, some}
pub use mathlib.Core.List.{List, [], ◌∷◌, ◌++◌, map}
pub use native.Mathlib.Omega.{arith}
pub use mathlib.Core.Logic.{ite, dite}
pub use mathlib.Core.WellFounded.{Acc, WellFounded}
unfoldable pub use native.Mathlib.Decide.{dec_lt, dec_le, ℕ_discrete}
