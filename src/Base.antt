-- ===== src/Base.antt =====
-- What every part shares: the libraries' names passed on, tests on numbers, lists measured by
-- native numbers, machine words, the outcome of code that may panic, and containers that come
-- from other packages.
mod Tests
mod Lists
mod Numbers
mod Panics
pub mod Int
pub mod Bits
pub use Tests.*
pub use Lists.*
pub use Numbers.*
pub use Panics.*
pub use Prim.Native.Nat.{ℕ, zero, suc, ◌+◌, ◌-◌, ◌*◌, ◌/◌, ◌%◌, ◌^◌, ◌≤◌, ◌<◌, min, max}
pub use mathlib.Core.Path.{◌≡◌, refl, sym, ap, ◌∙◌, subst}
pub use mathlib.Core.Logic.{◌≢◌, ◌↔◌, ◌⊎◌, inl, inr}
pub use mathlib.Core.Bool.{Bool, true, false, not, ◌&&◌, ◌||◌}
pub use mathlib.Core.Option.{Option, none, some}
pub use mathlib.Core.List.{List, [], ◌∷◌, ◌++◌, map, reverse, reverse-reverse, append_assoc}
pub use native.Mathlib.Omega.{arith}
