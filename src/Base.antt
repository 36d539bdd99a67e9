-- ===== src/Base.antt =====
-- The names that every module shares: the libraries' names, passed on, and those of the children.
-- Python's strings are lists of code points (Base/Text), its dictionaries are association lists in
-- insertion order (Base/Dict), and its non-negative floats are fixed-point numbers (see Lib.antt).
mod Tests
mod Lists
mod Classes
pub mod Text
pub mod Dict
pub mod Lru
pub mod Int
unfoldable pub use Tests.*
unfoldable pub use Lists.*
unfoldable pub use Classes.*
pub use Prim.Native.Nat.{
  ℕ, zero, suc, ◌+◌, ◌-◌, ◌*◌, ◌/◌, ◌%◌, ◌^◌, ◌≤◌, ◌<◌, min, max, bit_xor, bit_and,
}
pub use mathlib.Core.Path.{◌≡◌, refl, sym, ap, ◌∙◌}
pub use mathlib.Core.Logic.{◌≢◌, ◌↔◌, ◌⊎◌, inl, inr}
pub use mathlib.Core.Bool.{Bool, true, false, not, ◌&&◌, ◌||◌}
pub use mathlib.Core.Option.{Option, none, some}
pub use mathlib.Core.List.{List, [], ◌∷◌, ◌++◌, map}
pub use native.Mathlib.Omega.{arith}
