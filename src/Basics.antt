-- ===== src/Basics.antt =====
-- Names, tests, lists, texts and results that the modules share. No code of the repository is
-- modelled here; the errors it throws (src/utils/http-error.ts) are the refusals of each component.
mod Tests
mod Lists
mod Rows
mod Outcome
mod Texts
pub use Tests.*
pub use Lists.*
pub use Rows.*
unfoldable pub use Texts.*
pub use Outcome.*
pub use Prim.Native.Nat.{ℕ, zero, suc, ◌+◌, ◌-◌, ◌*◌, ◌/◌, ◌%◌, ◌≤◌, ◌<◌}
pub use mathlib.Core.Path.{◌≡◌, refl, sym, ap, ◌∙◌, subst}
pub use mathlib.Core.Logic.{◌≢◌, ◌↔◌, ◌⊎◌, inl, inr}
pub use mathlib.Core.Bool.{Bool, true, false, not, ◌&&◌, ◌||◌}
pub use mathlib.Core.Option.{Option, none, some, some-injective}
pub use mathlib.Core.List.{List, [], ◌∷◌, ◌++◌, map}
pub use native.Mathlib.Omega.{arith}
