-- ===== src/PowerOfTwo/Smear.antt =====
-- The or-shifts fill every digit below the highest one.
use just_library.Base.{
  ℕ, suc, ◌+◌, ◌-◌, ◌*◌, ◌/◌, ◌%◌, ◌^◌, ◌≤◌, ◌<◌, ◌≡◌, ap, sym, subst, bit_or, arith,
}
use just_library.Base.Pow.{
  pow-double, pow-add, pow_mono, div-mod-pow, mod-pow-lt, div-pow-lt, pow-le-mul-sub,
}
use just_library.Base.Bits.{bit_or-zero, bit_or-lt, le-bit_or, bit_or-fields}
use just_library.PowerOfTwo.{or_shift, smear}
use native.Mathlib.Nat.{div-eq_of_lt, mul-le-mul_right}
use native.Mathlib.Decide.{dec_le}

-- `x` has `w` digits, and all of them are ones but the lowest `j`.
abbrev pub Filled : ℕ → ℕ → ℕ → Type 0
Filled w j x = (2 ^ w ≤ x + 2 ^ j) × (x < 2 ^ w)

-- The shifted word fills the digits that were open, as far as it reaches.
shift-Filled : (m j x : ℕ) → 2 ^ (m + j) ≤ x + 2 ^ j → 2 ^ j ≤ x / 2 ^ m + 2 ^ (j - m)
shift-Filled m j x h = elim (dec_le (2 ^ j) (x / 2 ^ m + 2 ^ (j - m))) [
  | yes p ↦ p
  | no p ↦ absurd (
      omega (
        arith,
        pow-add m j,
        pow-le-mul-sub j m,
        div-mod-pow x m,
        mod-pow-lt x m,
        mul-le-mul_right (2 ^ m) (not_filled p),
      ))
]
  where
    not_filled : ¬ (2 ^ j ≤ x / 2 ^ m + 2 ^ (j - m)) → x / 2 ^ m + 2 ^ (j - m) + 1 ≤ 2 ^ j
    not_filled p = omega arith

-- The digits above the open ones are all ones.
high-Filled : (m j x : ℕ) → 2 ^ (m + j) ≤ x + 2 ^ j → 2 ^ (m + j) ≤ x / 2 ^ j * 2 ^ j + 2 ^ j
high-Filled m j x h = elim (dec_le (2 ^ m) (x / 2 ^ j + 1)) [
  | yes p ↦ omega (arith, pow-add m j, mul-le-mul_right (2 ^ j) p)
  | no p ↦ absurd (
      omega
        (arith, pow-add m j, div-mod-pow x j, mod-pow-lt x j, mul-le-mul_right (2 ^ j) (short p)))
]
  where
    short : ¬ (2 ^ m ≤ x / 2 ^ j + 1) → x / 2 ^ j + 2 ≤ 2 ^ m
    short p = omega arith

-- One or-shift by as many places as are filled leaves fewer digits open.
or_shift-Filled_sum : (m j x : ℕ) → Filled (m + j) j x → Filled (m + j) (j - m) (or_shift m x)
or_shift-Filled_sum m j x (lo, hi) = (
  omega (
    arith,
    high-Filled m j x lo,
    shift-Filled m j x lo,
    le-bit_or j (x % 2 ^ j) (x / 2 ^ m) (div-pow-lt x m j hi),
    bit_or-fields j (x / 2 ^ j) (x % 2 ^ j) (x / 2 ^ m) (mod-pow-lt x j) (div-pow-lt x m j hi),
    ap (λ t. bit_or t (x / 2 ^ m)) (div-mod-pow x j),
  ),
  bit_or-lt (m + j) x (x / 2 ^ m) hi
      (omega (arith, div-pow-lt x m j hi, pow_mono j (m + j) (omega arith))),
)

or_shift-Filled : (w m x : ℕ) → Filled w (w - m) x → Filled w (w - m - m) (or_shift m x)
or_shift-Filled w m x f = elim (dec_le m w) [
  | yes p ↦
      let e : m + (w - m) ≡ w = omega arith in
      subst (λ t. Filled t (w - m - m) (or_shift m x)) e
        (or_shift-Filled_sum m (w - m) x (subst (λ t. Filled t (w - m) x) (sym e) f))
  | no p ↦
      let none_left : w - m - m ≡ w - m = omega arith in
      let gone : x / 2 ^ m ≡ 0 = div-eq_of_lt (omega (arith, pow_mono w m (omega arith))) in
      rw (gone, bit_or-zero, none_left) f
]

-- After all six shifts a word of at most 64 digits is a row of ones.
pub smear-eq : (w x : ℕ) → w < 64 → 2 ^ w ≤ x → x < 2 ^ suc w → smear x ≡ 2 ^ suc w - 1
unfolding smear
smear-eq w x h lo hi = omega (arith, last.0, last.1, all)
  where
    step :
        (m n y : ℕ)
        → n ≡ m + m
        → Filled (suc w) (suc w - m) y
        → Filled (suc w) (suc w - n) (or_shift m y)
    step m n y e f =
        subst (λ t. Filled (suc w) t (or_shift m y)) (omega arith) (or_shift-Filled (suc w) m y f)

    start : Filled (suc w) (suc w - 1) x
    start =
        subst (λ t. Filled (suc w) t x) {x = w} {y = suc w - 1} (omega arith)
          (omega (arith, pow-double w), hi)

    last : Filled (suc w) (suc w - 64) (smear x)
    last = step 32 64 _ (omega arith) (
        step 16 32 _ (omega arith) (
          step 8 16 _ (omega arith)
            (step 4 8 _ (omega arith) (step 2 4 _ (omega arith) (step 1 2 x (omega arith) start)))))

    all : 2 ^ (suc w - 64) ≡ 1
    all = ap (λ t. 2 ^ t) {x = suc w - 64} {y = 0} (omega arith)
