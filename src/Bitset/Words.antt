-- ===== src/Bitset/Words.antt =====
-- One bit of one word: what the masks read and write.
use Prim.Native.Nat.{differ}
use native.Mathlib.Decide.{ℕ_discrete}
use just_library.Base.{
  ℕ, zero, suc, ◌*◌, ◌/◌, ◌%◌, ◌^◌, ◌<◌, ◌≡◌, ap, ◌∙◌, Bool, true, false, not, ◌&&◌, ◌||◌, arith,
  bit_and, bit_or, bit_xor, ◌==◌, not_size, if◌then◌else◌,
}
use just_library.Base.Bits.{
  digit, digit-lt, digit-bit_and, digit-bit_or, digit-pow_self, digit-pow_ne, digit-not,
  bit_and_mask, bit_and_step, bit_xor_step,
}
use just_library.Base.Pow.{pow-pos, pow-double, mul-pow-suc}

-- The test `(w & (1 << k)) != 0`.
abbrev pub test : ℕ → ℕ → Bool
test w k = not (bit_and w (2 ^ k) == 0)

bit_and-pow : (k w : ℕ) → bit_and w (2 ^ k) ≡ digit w k * 2 ^ k
bit_and-pow zero w = omega (arith, bit_and_mask 1 w)
bit_and-pow (suc k) w =
    let half : 2 ^ suc k / 2 ≡ 2 ^ k = omega (arith, pow-double k) in
    omega (
      arith,
      bit_and_step w (2 ^ suc k),
      ap (bit_and (w / 2)) half,
      bit_and-pow k (w / 2),
      mul-pow-suc (digit (w / 2) k) k,
      pow-double k,
    )

-- It reads the digit at `k`.
test-digit : (w k : ℕ) → test w k ≡ (digit w k == 1)
test-digit w k = elim (ℕ_discrete (digit w k) 0) [
  | yes p ↦ let e : bit_and w (2 ^ k) ≡ 0 = bit_and-pow k w ∙ rw p (omega arith) in ground (arith)
  | no p ↦
      let one : digit w k ≡ 1 = omega (arith, digit-lt w k) in
      let e : bit_and w (2 ^ k) ≡ 2 ^ k = bit_and-pow k w ∙ rw one (omega arith) in
      ground (arith, pow-pos k, digit-lt w k)
]

digit-pow : (j k : ℕ) → digit (2 ^ j) k ≡ (elim (j == k) [ true ↦ 1 | false ↦ 0 ])
digit-pow j k = elim (ℕ_discrete j k) [
  | yes p ↦ let e : (j == k) ≡ true = ground arith in rw (e, p) (digit-pow_self k)
  | no p ↦ let e : (j == k) ≡ false = ground arith in rw e (digit-pow_ne j k p)
]

pub test-bit_or : (a b k : ℕ) → test (bit_or a b) k ≡ (test a k || test b k)
test-bit_or a b k =
    rw (test-digit (bit_or a b) k, test-digit a k, test-digit b k)
      (ground (arith, digit-bit_or k a b, digit-lt a k, digit-lt b k))

pub test-bit_and : (a b k : ℕ) → test (bit_and a b) k ≡ (test a k && test b k)
test-bit_and a b k =
    rw (test-digit (bit_and a b) k, test-digit a k, test-digit b k)
      (ground (arith, digit-bit_and k a b, digit-lt a k, digit-lt b k))

pub test-not : (b k : ℕ) → b < 2 ^ 64 → k < 64 → test (not_size b) k ≡ not (test b k)
test-not b k h l =
    rw (test-digit (not_size b) k, test-digit b k)
      (ground (arith, digit-not 64 b k h l, digit-lt b k))

pub test-pow : (j k : ℕ) → test (2 ^ j) k ≡ (j == k)
test-pow j k = rw (test-digit (2 ^ j) k) (ground (arith, digit-pow j k))

differ-le : (x y : ℕ) → x < 2 → y < 2 → differ x y < 2
differ-le zero y h l = l
differ-le (suc zero) zero h l = omega arith
differ-le (suc zero) (suc zero) h l = omega arith
differ-le (suc zero) (suc (suc y)) h l = absurd (omega arith)
differ-le (suc (suc x)) y h l = absurd (omega arith)

digit-bit_xor : (k a b : ℕ) → digit (bit_xor a b) k ≡ differ (digit a k) (digit b k)
digit-bit_xor zero a b =
    omega (arith, bit_xor_step a b, differ-le (a % 2) (b % 2) (omega arith) (omega arith))
digit-bit_xor (suc k) a b =
    let e : bit_xor a b / 2 ≡ bit_xor (a / 2) (b / 2) =
      omega (arith, bit_xor_step a b, differ-le (a % 2) (b % 2) (omega arith) (omega arith)) in
    rw e (digit-bit_xor k (a / 2) (b / 2))

pub test-bit_xor :
    (a b k : ℕ) → test (bit_xor a b) k ≡ (if test a k then not (test b k) else test b k)
test-bit_xor a b k =
    rw (test-digit (bit_xor a b) k, test-digit a k, test-digit b k)
      (ground (arith, digit-bit_xor k a b, digit-lt a k, digit-lt b k))
