-- ===== src/Base/Pow.antt =====
-- Powers of two: the laws that the tactics lack.
use Prim.Native.Nat.{ℕ, zero, suc, ◌+◌, ◌-◌, ◌*◌, ◌/◌, ◌%◌, ◌^◌, ◌≤◌, ◌<◌}
use mathlib.Core.Path.{◌≡◌, sym, ◌∙◌, ap}
use native.Mathlib.Omega.{arith}
use native.Mathlib.Nat.{pow-suc, one-le-pow, pow-le-pow_right}
use native.Mathlib.Nat.{div-div-eq-div-mul, div-add-mod', mod-lt, mul-add-div_right}
use native.Mathlib.Nat.{mul-add-mod_self_right, mod-eq_of_lt, div-eq_of_lt, div-lt_iff_lt-mul}

pub pow-pos : (k : ℕ) → 0 < 2 ^ k
pow-pos k = one-le-pow k 2 (omega arith)

pub pow-double : (k : ℕ) → 2 ^ suc k ≡ 2 * 2 ^ k
pow-double k = omega (arith, pow-suc 2 k)

pub pow-add : (a b : ℕ) → 2 ^ (a + b) ≡ 2 ^ a * 2 ^ b
pow-add zero b = let e : zero + b ≡ b = omega arith in rw e (omega arith)
pow-add (suc a) b =
    let e : suc a + b ≡ suc (a + b) = omega arith in
    rw e (
      omega (
        arith,
        pow-double (a + b),
        pow-double a,
        pow-add a b,
        ap (λ (t : ℕ). t * 2 ^ b) (pow-double a),
      ))

pub pow_mono : (a b : ℕ) → a ≤ b → 2 ^ a ≤ 2 ^ b
pow_mono a b h = pow-le-pow_right {n = 2} (omega arith) h

-- Powers of two are strictly increasing.
pub pow-lt : (a b : ℕ) → a < b → 2 ^ a < 2 ^ b
pow-lt a b h = omega (arith, pow_mono (suc a) b h, pow-double a, pow-pos a)

-- Halving reaches zero in as many steps as there are binary digits.
pub lt-pow : (n : ℕ) → n < 2 ^ n
lt-pow zero = omega arith
lt-pow (suc n) = omega (arith, lt-pow n, pow-double n)

pub mul-pow-suc : (q k : ℕ) → q * 2 ^ suc k ≡ 2 * (q * 2 ^ k)
mul-pow-suc q k = omega (arith, ap (λ (t : ℕ). q * t) (pow-double k))

pub div-pow-suc : (x k : ℕ) → x / 2 ^ suc k ≡ x / 2 / 2 ^ k
div-pow-suc x k = ap (λ t. x / t) (pow-double k) ∙ sym (div-div-eq-div-mul x 2 (2 ^ k))

-- Quotient and remainder by a power of two.
pub div-mod-pow : (x k : ℕ) → x / 2 ^ k * 2 ^ k + x % 2 ^ k ≡ x
div-mod-pow x k = div-add-mod' x (2 ^ k)

pub mod-pow-lt : (x k : ℕ) → x % 2 ^ k < 2 ^ k
mod-pow-lt x k = mod-lt x (pow-pos k)

pub mod-pow-suc : (x k : ℕ) → x % 2 ^ suc k ≡ x / 2 % 2 ^ k * 2 + x % 2
mod-pow-suc x k = omega (
  arith,
  div-mod-pow x (suc k),
  div-mod-pow (x / 2) k,
  mul-pow-suc (x / 2 ^ suc k) k,
  ap (λ (t : ℕ). t * 2 ^ k) (div-pow-suc x k),
)

pub div-fields : (q r k : ℕ) → r < 2 ^ k → (q * 2 ^ k + r) / 2 ^ k ≡ q
div-fields q r k h = omega (arith, mul-add-div_right {m = 2 ^ k} (pow-pos k) q r, div-eq_of_lt h)

pub mod-fields : (q r k : ℕ) → r < 2 ^ k → (q * 2 ^ k + r) % 2 ^ k ≡ r
mod-fields q r k h = mul-add-mod_self_right q (2 ^ k) r ∙ mod-eq_of_lt h

pub div-pow-lt : (x a b : ℕ) → x < 2 ^ (a + b) → x / 2 ^ a < 2 ^ b
div-pow-lt x a b h =
    (div-lt_iff_lt-mul {k = 2 ^ a} {x = x} {y = 2 ^ b} (pow-pos a)).1 (omega (arith, pow-add a b))

pub pow-le-mul-sub : (j m : ℕ) → 2 ^ j ≤ 2 ^ (j - m) * 2 ^ m
pow-le-mul-sub j m =
    let e : j ≤ j - m + m = omega arith in
    omega (arith, pow_mono j (j - m + m) e, pow-add (j - m) m)
