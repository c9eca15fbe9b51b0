-- ===== src/Common.antt =====
-- The names that the other modules share: those of the libraries, passed on, Boolean tests,
-- equality as an interface, results, texts and lists.
pub mod Tests
pub mod Equality
pub mod Results
pub mod Lists
pub mod Text
pub mod Pairs
pub mod Maps
pub use Tests.*
pub use Equality.*
pub use Results.*
pub use Lists.*
unfoldable pub use Text.*
unfoldable pub use Pairs.*
pub use Maps.*
pub use Prim.Native.Nat.{ℕ, zero, suc, ◌+◌, ◌-◌, ◌*◌, ◌/◌, ◌%◌, ◌^◌, ◌≤◌, ◌<◌}
pub use Prim.Native.String.{String}
pub use mathlib.Core.Path.{◌≡◌, refl, sym, ap, subst, ◌∙◌}
pub use mathlib.Core.Logic.{◌≢◌, ◌↔◌, ◌⊎◌, inl, inr}
pub use mathlib.Core.Bool.{Bool, true, false, not, ◌&&◌, ◌||◌}
pub use mathlib.Core.Option.{Option, none, some}
pub use mathlib.Core.List.{List, [], ◌∷◌, ◌++◌, append_assoc}
pub use native.Mathlib.Omega.{arith}
