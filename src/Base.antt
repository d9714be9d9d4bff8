-- ===== src/Base.antt =====
-- The names that the modules of this library share: the libraries', passed on, Boolean tests and
-- lists over the native numbers, and 64-bit words.
mod Tests
mod Lists
mod Integers
mod Pairwise
mod Family
mod Word
mod Results
pub use Tests.*
pub use Results.*
pub use Lists.*
unfoldable pub use Family.*
pub use Integers.*
pub use Pairwise.*
unfoldable pub use Word.*
pub use Prim.Native.Nat.{ℕ, zero, suc, ◌+◌, ◌-◌, ◌*◌, ◌/◌, ◌%◌, ◌^◌, ◌≤◌, ◌<◌}
pub use mathlib.Core.Path.{◌≡◌, refl, sym, ap, subst, ◌∙◌}
pub use mathlib.Core.Logic.{◌≢◌, ◌↔◌, ◌⊎◌, inl, inr, dite}
pub use mathlib.Core.Bool.{Bool, true, false, not, ◌&&◌, ◌||◌}
pub use mathlib.Core.Option.{Option, none, some}
pub use mathlib.Core.List.{List, [], ◌∷◌, ◌++◌, map, append-nil, append_assoc}
pub use native.Mathlib.Omega.{arith}
unfoldable pub use native.Mathlib.Decide.{dec_lt, ℕ_discrete}
mod Order
unfoldable pub use Order.*
