-- ===== src/Base/Size.antt =====
-- `size_t`, `uint64_t` and `uintptr_t` arithmetic on a 64-bit platform: a value is a number below
-- 2 ^ 64, and every operation wraps.
use Prim.Native.Nat.{ℕ, ◌+◌, ◌-◌, ◌*◌, ◌%◌, ◌^◌, ◌≤◌, ◌<◌}
use mathlib.Core.Path.{◌≡◌}
use native.Mathlib.Omega.{arith}
use native.Mathlib.Nat.{mod-eq_of_lt}

abbrev pub size_mod : ℕ
size_mod = 2 ^ 64

-- `SIZE_MAX`, also `(size_t)-1`
abbrev pub size_max : ℕ
size_max = 2 ^ 64 - 1

abbrev pub add_size : ℕ → ℕ → ℕ
add_size a b = (a + b) % 2 ^ 64

-- `-` on ℕ stops at 0, so the modulus is added first.
abbrev pub sub_size : ℕ → ℕ → ℕ
sub_size a b = (a + 2 ^ 64 - b) % 2 ^ 64

abbrev pub mul_size : ℕ → ℕ → ℕ
mul_size a b = (a * b) % 2 ^ 64

-- `~x`
abbrev pub not_size : ℕ → ℕ
not_size x = 2 ^ 64 - 1 - x

pub add_size-eq : (a b : ℕ) → a + b < size_mod → add_size a b ≡ a + b
add_size-eq a b h = omega arith

pub sub_size-eq : (a b : ℕ) → b ≤ a → a < size_mod → sub_size a b ≡ a - b
sub_size-eq a b h k = omega arith

pub mul_size-eq : (a b : ℕ) → a * b < size_mod → mul_size a b ≡ a * b
mul_size-eq a b h = mod-eq_of_lt h
