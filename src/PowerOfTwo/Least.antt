-- ===== src/PowerOfTwo/Least.antt =====
-- The rounding functions return the least power of two that is large enough.
use native.Mathlib.Decide.{dec_le, dec_lt}
use just_library.Base.{
  ℕ, zero, suc, ◌-◌, ◌^◌, ◌≤◌, ◌<◌, ◌≡◌, refl, ◌≢◌, arith, lt→ltb, le→ltb, leb, ◌==◌, true, false,
}
use just_library.Base.Pow.{pow_mono, pow-lt}
use just_library.PowerOfTwo.{
  round_up, ring_next_power_of_two, queue_round_to_power_of_two, map_next_power_of_two,
}
use just_library.PowerOfTwo.Smear.{smear-eq}

-- `c` is the least power of two that reaches both `n` and `floor`.
pub record RoundsUp (floor n c : ℕ) : Type 0 where
  pub exponent : ℕ
  pub small : exponent < 64
  pub power : c ≡ 2 ^ exponent
  pub enough : n ≤ c
  pub above : floor ≤ c
  pub least : (j : ℕ) → n ≤ 2 ^ j → floor ≤ 2 ^ j → c ≤ 2 ^ j

-- There is one such power at most.
pub RoundsUp-unique : (floor n c c' : ℕ) → RoundsUp floor n c → RoundsUp floor n c' → c ≡ c'
RoundsUp-unique floor n c c' u u' =
    let le =
      u.least u'.exponent (omega (arith, u'.enough, u'.power))
        (omega (arith, u'.above, u'.power)) in
    let ge =
      u'.least u.exponent (omega (arith, u.enough, u.power)) (omega (arith, u.above, u.power)) in
    omega (arith, u.power, u'.power)

-- The place of the highest digit.
highest : (n x : ℕ) → 0 < x → x < 2 ^ n → (w : ℕ) × (w < n) × (2 ^ w ≤ x) × (x < 2 ^ suc w)
highest zero x h l = absurd (omega arith)
highest (suc n) x h l = elim (dec_le (2 ^ n) x) [
  | yes p ↦ (n, omega arith, p, l)
  | no p ↦ let (w, small, lo, hi) = highest n x h (omega arith) in (w, omega arith, lo, hi)
]

-- A power of two above `2 ^ w` is at least the next one.
next_power : (w j : ℕ) → 2 ^ w < 2 ^ j → 2 ^ suc w ≤ 2 ^ j
next_power w j h = elim (dec_lt w j) [
  | yes p ↦ pow_mono (suc w) j p
  | no p ↦ absurd (omega (arith, pow_mono j w (omega arith)))
]

round_up-eq : (w n : ℕ) → w < 63 → 2 ^ w < n → n ≤ 2 ^ suc w → round_up n ≡ 2 ^ suc w
unfolding round_up
round_up-eq w n h lo hi = omega (
  arith,
  smear-eq w (n - 1) (omega arith) (omega arith) (omega arith),
  pow-lt (suc w) 64 (omega arith),
)

pub round_up-RoundsUp :
    (floor n : ℕ) → floor ≤ n → 2 ≤ n → n ≤ 2 ^ 63 → RoundsUp floor n (round_up n)
round_up-RoundsUp floor n f two max =
    let (w, small, lo, hi) = highest 63 (n - 1) (omega arith) (omega arith) in
    let e = round_up-eq w n small (omega arith) (omega arith) in
    record {
      exponent = suc w;
      small = omega arith;
      power = e;
      enough = omega arith;
      above = omega arith;
      least = λ j p q. rw e (next_power w j (omega arith));
    }

-- Past the largest power of two in the type the final increment wraps to zero.
pub round_up-wraps : (n : ℕ) → 2 ^ 63 < n → n < 2 ^ 64 → round_up n ≡ 0
unfolding round_up
round_up-wraps n lo hi =
    omega (arith, smear-eq 63 (n - 1) (omega arith) (omega arith) (omega arith))

at_floor : (k n : ℕ) → k < 64 → n ≤ 2 ^ k → RoundsUp (2 ^ k) n (2 ^ k)
at_floor k n h le = record {
  exponent = k;
  small = h;
  power = refl;
  enough = le;
  above = omega arith;
  least = λ j p q. q;
}

-- `justRingNextPowerOfTwo` returns, for every request up to 2 ^ 63, the least power of two that is
-- at least the request and at least 1.
pub ring_next_power_of_two-RoundsUp : (n : ℕ) → n ≤ 2 ^ 63 → RoundsUp 1 n (ring_next_power_of_two n)
unfolding ring_next_power_of_two
ring_next_power_of_two-RoundsUp n h = elim (dec_le n 1) [
  | yes p ↦ let e : leb n 1 ≡ true = ground arith in rw e (at_floor 0 n (omega arith) p)
  | no p ↦
      let e : leb n 1 ≡ false = ground arith in
      rw e (round_up-RoundsUp 1 n (omega arith) (omega arith) h)
]

-- `justQueueRoundToPowerOfTwo` returns, for every request from 1 to 2 ^ 63, the least power of two
-- that is at least the request and at least 8.
pub queue_round_to_power_of_two-RoundsUp :
    (n : ℕ) → n ≢ 0 → n ≤ 2 ^ 63 → RoundsUp 8 n (queue_round_to_power_of_two n)
unfolding queue_round_to_power_of_two
queue_round_to_power_of_two-RoundsUp n pos h =
    let nonzero : (n == 0) ≡ false = ground arith in
    elim (dec_lt n 8) [
      | yes p ↦ rw (nonzero, lt→ltb n 8 p) (at_floor 3 n (omega arith) (omega arith))
      | no p ↦
          rw (nonzero, le→ltb n 8 (omega arith))
            (round_up-RoundsUp 8 n (omega arith) (omega arith) h)
    ]

-- `justMapNextPowerOfTwo` returns, for every request up to 2 ^ 63, the least power of two that is
-- at least the request and at least 16.
pub map_next_power_of_two-RoundsUp : (n : ℕ) → n ≤ 2 ^ 63 → RoundsUp 16 n (map_next_power_of_two n)
unfolding map_next_power_of_two
map_next_power_of_two-RoundsUp n h = elim (dec_lt n 16) [
  | yes p ↦ rw (lt→ltb n 16 p) (at_floor 4 n (omega arith) (omega arith))
  | no p ↦ rw (le→ltb n 16 (omega arith)) (round_up-RoundsUp 16 n (omega arith) (omega arith) h)
]
