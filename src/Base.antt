-- ===== src/Base.antt =====
-- The names that every module shares: the libraries', passed on, and those of the children
-- (Boolean tests, arrays as lists, `size_t` arithmetic, `int32_t` as integers).
mod Tests
mod Lists
mod Size
mod Copy
pub mod Int
pub mod Bits
pub mod Pow
pub mod Align
pub mod Sum
pub mod Text
pub use Tests.*
pub use Lists.*
pub use Size.*
unfoldable pub use Copy.{copy}
pub use Copy.{put, length-copy, get_elem?-copy_before, get_elem?-copy, get_elem?-copy_front}
pub use Prim.Native.Nat.{ℕ, zero, suc, ◌+◌, ◌-◌, ◌*◌, ◌/◌, ◌%◌, ◌^◌, ◌≤◌, ◌<◌, compare}
pub use Prim.Native.Nat.{bit_and, bit_or, bit_xor}
pub use mathlib.Core.Path.{◌≡◌, refl, sym, ap, ap₂, subst, ◌∙◌}
pub use mathlib.Core.Logic.{◌≢◌, ◌↔◌, ◌⊎◌, inl, inr}
pub use mathlib.Core.Bool.{Bool, true, false, not, ◌&&◌, ◌||◌}
pub use mathlib.Core.Option.{Option, none, some}
pub use mathlib.Core.List.{List, [], ◌∷◌, ◌++◌, map, append-nil, append_assoc}
pub use native.Mathlib.Omega.{arith}
pub use native.Mathlib.Nat.{
  mod-add-mod, mod-eq_of_lt, mod-eq-sub-mod, add-zero, pow-suc, le_refl, le_trans,
}
