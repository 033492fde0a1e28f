-- ===== src/Prelude.antt =====
-- The names that every other module shares: those of the libraries, passed on, and those of the
-- children, which hold the Boolean tests, the lists over native numbers, the results with errors
-- and the big-endian numbers.
mod Tests
mod Lists
mod Results
mod Words
mod Ints
pub mod Numerals
pub mod Slashes
pub use Tests.*
pub use Lists.*
pub use Results.*
pub use Words.*
pub use Ints.*
pub use Prim.Native.Nat.{ℕ, zero, suc, ◌+◌, ◌-◌, ◌*◌, ◌/◌, ◌%◌, ◌^◌, ◌≤◌, ◌<◌}
pub use mathlib.Core.Path.{◌≡◌, refl, sym, ap, subst, fun_ext, ◌∙◌, ◌≡⟨◌⟩◌, ◌∎}
pub use mathlib.Core.Logic.{◌≢◌, ◌↔◌, ◌⊎◌, inl, inr}
pub use mathlib.Core.Bool.{Bool, true, false, not, ◌&&◌, ◌||◌}
pub use mathlib.Core.Option.{Option, none, some}
pub use mathlib.Core.List.{List, [], ◌∷◌, ◌++◌, map}
pub use native.Mathlib.Omega.{arith}
