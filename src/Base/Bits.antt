-- ===== src/Base/Bits.antt =====
-- `&`, `|` and `^` on words, read through their binary digits: the equation for the lowest digit,
-- the digit at every position, and the masks that the program forms.
use Prim.Native.Nat.{
  ℕ, zero, suc, ◌+◌, ◌-◌, ◌*◌, ◌/◌, ◌%◌, ◌^◌, ◌≤◌, ◌<◌, min, max, bit_and, bit_or, bit_xor,
}
use Prim.Native.Nat.{digits, differ, bit_and-bitwise, bit_or-bitwise, bit_xor-bitwise}
use mathlib.Core.Path.{◌≡◌, refl, sym, ap, ◌∙◌}
use mathlib.Core.Logic.{◌≢◌}
use native.Mathlib.Omega.{arith}
use native.Mathlib.Nat.{mod-eq_of_lt}
use just_library.Base.Pow.{pow-pos, pow-double, mul-pow-suc, div-pow-suc, mod-pow-suc}

-- The digit recursion does not depend on how much fuel it has, if it has enough.
module _ (z : ℕ → ℕ) (f : ℕ → ℕ → ℕ) where
  digits_enough : (a b k l : ℕ) → a ≤ k → a ≤ l → digits z f k a b ≡ digits z f l a b
  digits_enough zero b zero zero p q = refl
  digits_enough zero b zero (suc l) p q = refl
  digits_enough zero b (suc k) zero p q = refl
  digits_enough zero b (suc k) (suc l) p q = refl
  digits_enough (suc a) b zero l p q = absurd (omega arith)
  digits_enough (suc a) b (suc k) zero p q = absurd (omega arith)
  digits_enough (suc a) b (suc k) (suc l) p q =
      rw (digits_enough (suc a / 2) (b / 2) k l (omega arith) (omega arith))

  -- An operation that means the recursion can be read off its lowest digit.
  split_lowest :
      (op : ℕ → ℕ → ℕ)
      → ((x y : ℕ) → op x y ≡ digits z f x x y)
      → ((y : ℕ) → z y ≡ z (y / 2) * 2 + f 0 (y % 2))
      → (x y : ℕ) → op x y ≡ op (x / 2) (y / 2) * 2 + f (x % 2) (y % 2)
  split_lowest op means rest zero y = rw (means 0 y, means 0 (y / 2)) (rest y)
  split_lowest op means rest (suc x) y = rw (
    means (suc x) y,
    means (suc x / 2) (y / 2),
    digits_enough (suc x / 2) (y / 2) x (suc x / 2) (omega arith) (omega arith),
  )

pub bit_xor_step : (a b : ℕ) → bit_xor a b ≡ bit_xor (a / 2) (b / 2) * 2 + differ (a % 2) (b % 2)
bit_xor_step = split_lowest (λ y. y) differ bit_xor bit_xor-bitwise (λ y. omega arith)

pub bit_and_step : (a b : ℕ) → bit_and a b ≡ bit_and (a / 2) (b / 2) * 2 + min (a % 2) (b % 2)
bit_and_step = split_lowest (λ y. 0) min bit_and bit_and-bitwise (λ y. omega arith)

pub bit_or_step : (a b : ℕ) → bit_or a b ≡ bit_or (a / 2) (b / 2) * 2 + max (a % 2) (b % 2)
bit_or_step = split_lowest (λ y. y) max bit_or bit_or-bitwise (λ y. omega arith)

-- The binary digit of `x` at position `k`.
abbrev pub digit : ℕ → ℕ → ℕ
digit x zero = x % 2
digit x (suc k) = digit (x / 2) k

pub digit-zero : (k : ℕ) → digit 0 k ≡ 0
digit-zero zero = omega arith
digit-zero (suc k) = digit-zero k

pub digit-lt : (x k : ℕ) → digit x k < 2
digit-lt x zero = omega arith
digit-lt x (suc k) = digit-lt (x / 2) k

pub digit-div : (x k : ℕ) → digit x k ≡ x / 2 ^ k % 2
digit-div x zero = omega arith
digit-div x (suc k) = digit-div (x / 2) k ∙ ap (λ t. t % 2) (sym (div-pow-suc x k))

pub digit-bit_and : (k a b : ℕ) → digit (bit_and a b) k ≡ min (digit a k) (digit b k)
digit-bit_and zero a b = omega (arith, bit_and_step a b)
digit-bit_and (suc k) a b =
    let e : bit_and a b / 2 ≡ bit_and (a / 2) (b / 2) = omega (arith, bit_and_step a b) in
    rw e (digit-bit_and k (a / 2) (b / 2))

pub digit-bit_or : (k a b : ℕ) → digit (bit_or a b) k ≡ max (digit a k) (digit b k)
digit-bit_or zero a b = omega (arith, bit_or_step a b)
digit-bit_or (suc k) a b =
    let e : bit_or a b / 2 ≡ bit_or (a / 2) (b / 2) = omega (arith, bit_or_step a b) in
    rw e (digit-bit_or k (a / 2) (b / 2))

pub digit-pow_self : (k : ℕ) → digit (2 ^ k) k ≡ 1
digit-pow_self zero = omega arith
digit-pow_self (suc k) =
    let e : 2 ^ suc k / 2 ≡ 2 ^ k = omega (arith, pow-double k) in rw e (digit-pow_self k)

pub digit-pow_ne : (j k : ℕ) → j ≢ k → digit (2 ^ j) k ≡ 0
digit-pow_ne zero zero h = absurd (h refl)
digit-pow_ne zero (suc k) h = digit-zero k
digit-pow_ne (suc j) zero h = omega (arith, pow-double j)
digit-pow_ne (suc j) (suc k) h =
    let e : 2 ^ suc j / 2 ≡ 2 ^ j = omega (arith, pow-double j) in
    rw e (digit-pow_ne j k (λ p. h (ap suc p)))

-- The complement within `n` digits turns each of them round.
pub digit-not : (n x k : ℕ) → x < 2 ^ n → k < n → digit (2 ^ n - 1 - x) k ≡ 1 - digit x k
digit-not zero x k h l = elim l [ ]
digit-not (suc n) x zero h l = omega (arith, pow-double n)
digit-not (suc n) x (suc k) h l =
    let e : (2 ^ suc n - 1 - x) / 2 ≡ 2 ^ n - 1 - x / 2 = omega (arith, pow-double n) in
    rw e (digit-not n (x / 2) k (omega (arith, pow-double n)) (omega arith))

-- Numbers below `2 ^ n` with the same digits are equal.
pub digit-ext :
    (n x y : ℕ) → x < 2 ^ n → y < 2 ^ n → ((k : ℕ) → k < n → digit x k ≡ digit y k) → x ≡ y
digit-ext zero x y hx hy h = omega arith
digit-ext (suc n) x y hx hy h =
    let rest : x / 2 ≡ y / 2 =
      digit-ext n (x / 2) (y / 2) (omega (arith, pow-double n)) (omega (arith, pow-double n))
        (λ k l. h (suc k) (omega arith)) in
    omega (arith, h 0 (omega arith))

-- Bounds on `&` and `|`, by recursion on a bound for the first operand.
bit_and-zero_fuel : (n x : ℕ) → x ≤ n → bit_and x 0 ≡ 0
bit_and-zero_fuel zero x h = let e : x ≡ 0 = omega arith in rw e (bit_and-bitwise 0 0)
bit_and-zero_fuel (suc n) zero h = bit_and-bitwise 0 0
bit_and-zero_fuel (suc n) (suc x) h =
    omega (arith, bit_and_step (suc x) 0, bit_and-zero_fuel n (suc x / 2) (omega arith))

pub bit_and-zero : (x : ℕ) → bit_and x 0 ≡ 0
bit_and-zero x = bit_and-zero_fuel x x (omega arith)

bit_or-zero_fuel : (n x : ℕ) → x ≤ n → bit_or x 0 ≡ x
bit_or-zero_fuel zero x h = let e : x ≡ 0 = omega arith in rw e (bit_or-bitwise 0 0)
bit_or-zero_fuel (suc n) zero h = bit_or-bitwise 0 0
bit_or-zero_fuel (suc n) (suc x) h =
    omega (arith, bit_or_step (suc x) 0, bit_or-zero_fuel n (suc x / 2) (omega arith))

pub bit_or-zero : (x : ℕ) → bit_or x 0 ≡ x
bit_or-zero x = bit_or-zero_fuel x x (omega arith)

pub bit_or-lt : (n a b : ℕ) → a < 2 ^ n → b < 2 ^ n → bit_or a b < 2 ^ n
bit_or-lt zero a b ha hb =
    let e : a ≡ 0 = omega arith in
    let e' : b ≡ 0 = omega arith in rw (e, e') (omega (arith, bit_or-bitwise 0 0))
bit_or-lt (suc n) a b ha hb = omega (
  arith,
  pow-double n,
  bit_or_step a b,
  bit_or-lt n (a / 2) (b / 2) (omega (arith, pow-double n)) (omega (arith, pow-double n)),
)

pub le-bit_or : (n a b : ℕ) → b < 2 ^ n → b ≤ bit_or a b
le-bit_or zero a b h = omega arith
le-bit_or (suc n) a b h =
    omega (arith, bit_or_step a b, le-bit_or n (a / 2) (b / 2) (omega (arith, pow-double n)))

-- The digits from position `k` on are untouched by `|` with a number of `k` digits.
pub bit_or-fields :
    (k q r y : ℕ) → r < 2 ^ k → y < 2 ^ k → bit_or (q * 2 ^ k + r) y ≡ q * 2 ^ k + bit_or r y
bit_or-fields zero q r y hr hy =
    let e : r ≡ 0 = omega arith in
    let e' : y ≡ 0 = omega arith in rw (e, e') (simp (bit_or-zero) (omega arith))
bit_or-fields (suc k) q r y hr hy = omega (
  arith,
  mul-pow-suc q k,
  pow-double k,
  bit_or_step (q * 2 ^ suc k + r) y,
  bit_or_step r y,
  ap (λ t. bit_or t (y / 2)) halved,
  bit_or-fields k q (r / 2) (y / 2) (omega (arith, pow-double k)) (omega (arith, pow-double k)),
)
  where
    halved : (q * 2 ^ suc k + r) / 2 ≡ q * 2 ^ k + r / 2
    halved = omega (arith, mul-pow-suc q k)

-- `x & (2 ^ k - 1)` is the remainder.
pub bit_and_mask : (k x : ℕ) → bit_and x (2 ^ k - 1) ≡ x % 2 ^ k
bit_and_mask zero x = bit_and-zero x ∙ omega arith
bit_and_mask (suc k) x = omega (
  arith,
  bit_and_step x (2 ^ suc k - 1),
  pow-double k,
  pow-pos k,
  ap (bit_and (x / 2)) halved,
  bit_and_mask k (x / 2),
  mod-pow-suc x k,
)
  where
    halved : (2 ^ suc k - 1) / 2 ≡ 2 ^ k - 1
    halved = omega (arith, pow-double k, pow-pos k)

-- `x & ~(2 ^ k - 1)` within `k + n` digits clears the lowest `k` digits.
pub bit_and_high :
    (k n x : ℕ) → x < 2 ^ (k + n) → bit_and x (2 ^ (k + n) - 2 ^ k) ≡ x / 2 ^ k * 2 ^ k
bit_and_high zero n x h =
    let e : zero + n ≡ n = omega arith in
    omega (
      arith,
      bit_and_mask n x,
      mod-eq_of_lt {n = x} {m = 2 ^ n} (rw e at h),
      ap (λ (t : ℕ). bit_and x (2 ^ t - 1)) e,
    )
bit_and_high (suc k) n x h = omega (
  arith,
  more,
  bit_and_step x (2 ^ (suc k + n) - 2 ^ suc k),
  pow-double k,
  pow-double (k + n),
  ap (bit_and (x / 2)) halved,
  bit_and_high k n (x / 2) (omega (arith, more, pow-double (k + n))),
  mul-pow-suc (x / 2 ^ suc k) k,
  ap (λ (t : ℕ). t * 2 ^ k) (div-pow-suc x k),
)
  where
    more : 2 ^ (suc k + n) ≡ 2 * 2 ^ (k + n)
    more = let e : suc k + n ≡ suc (k + n) = omega arith in rw e (pow-double (k + n))

    halved : (2 ^ (suc k + n) - 2 ^ suc k) / 2 ≡ 2 ^ (k + n) - 2 ^ k
    halved = omega (arith, more, pow-double k)
