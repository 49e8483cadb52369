-- ===== src/Base/Align.antt =====
-- Rounding up to a multiple of a power of two, `(x + (al - 1)) & ~(al - 1)`.
use native.Mathlib.Decide.{dec_le}
use native.Mathlib.Nat.{mul-le-mul_right, add-mul}
use Prim.Native.Nat.{ℕ, ◌+◌, ◌-◌, ◌*◌, ◌/◌, ◌%◌, ◌^◌, ◌≤◌, ◌<◌, bit_and}
use mathlib.Core.Path.{◌≡◌, sym, ap, ap₂, subst, ◌∙◌}
use native.Mathlib.Omega.{arith}
use just_library.Base.Size.{add_size, sub_size, not_size, size_mod}
use just_library.Base.Bits.{bit_and_high}
use just_library.Base.Pow.{pow-pos, pow-lt, div-mod-pow, mod-pow-lt, mod-fields}

abbrev pub align_up : ℕ → ℕ → ℕ
align_up x al = bit_and (add_size x (sub_size al 1)) (not_size (sub_size al 1))

pub align_up-eq :
    (x k : ℕ) → k < 64 → x + 2 ^ k < size_mod → align_up x (2 ^ k) ≡ (x + 2 ^ k - 1) / 2 ^ k * 2 ^ k
align_up-eq x k h fits =
    let split : k + (64 - k) ≡ 64 = omega arith in
    let y = x + 2 ^ k - 1 in
    let round =
      subst (λ (t : ℕ). y < 2 ^ t → bit_and y (2 ^ t - 2 ^ k) ≡ y / 2 ^ k * 2 ^ k) split
        (bit_and_high k (64 - k) y) in
    ap₂ bit_and (omega (arith, pow-pos k)) (omega (arith, pow-pos k, pow-lt k 64 h))
    ∙ round (omega (arith, pow-pos k))

-- `p` is the first multiple of `al` from `c` on.
abbrev pub FirstMultiple : ℕ → ℕ → ℕ → Type 0
FirstMultiple c al p =
    (p % al ≡ 0) × (c ≤ p) × (p < c + al) × ((q : ℕ) → q % al ≡ 0 → c ≤ q → p ≤ q)

next_multiple : (k c q : ℕ) → c ≤ q * 2 ^ k → (c + 2 ^ k - 1) / 2 ^ k * 2 ^ k ≤ q * 2 ^ k
next_multiple k c q h = elim (dec_le ((c + 2 ^ k - 1) / 2 ^ k) q) [
  | yes p ↦ mul-le-mul_right (2 ^ k) p
  | no p ↦
      let more : q + 1 ≤ (c + 2 ^ k - 1) / 2 ^ k = omega arith in
      absurd (
        omega (
          arith,
          mul-le-mul_right (2 ^ k) more,
          add-mul q 1 (2 ^ k),
          div-mod-pow (c + 2 ^ k - 1) k,
          pow-pos k,
        ))
]

pub rounded-FirstMultiple : (k c : ℕ) → FirstMultiple c (2 ^ k) ((c + 2 ^ k - 1) / 2 ^ k * 2 ^ k)
rounded-FirstMultiple k c =
    let x = c + 2 ^ k - 1 in
    let parts = div-mod-pow x k in
    let small = mod-pow-lt x k in
    (
      ap (λ t. t % 2 ^ k) {x = x / 2 ^ k * 2 ^ k} (omega arith)
          ∙ mod-fields (x / 2 ^ k) 0 k (pow-pos k),
      omega (arith, pow-pos k),
      omega (arith, pow-pos k),
      λ q multiple behind.
          let whole : q / 2 ^ k * 2 ^ k ≡ q = omega (arith, div-mod-pow q k) in
          omega (arith, whole, next_multiple k c (q / 2 ^ k) (omega arith)),
    )

-- Rounding up gives the first multiple.
pub align_up-FirstMultiple :
    (x k : ℕ) → k < 64 → x + 2 ^ k < size_mod → FirstMultiple x (2 ^ k) (align_up x (2 ^ k))
align_up-FirstMultiple x k h fits =
    subst (FirstMultiple x (2 ^ k)) (sym (align_up-eq x k h fits)) (rounded-FirstMultiple k x)
