-- ===== src/PowerOfTwo.antt =====
-- The rounding to a power of two that src/dataStructures/ringBuffer.c, queue.c and hashMap.c each
-- declare as a static function: the same six or-shifts, behind different guards.
pub mod Smear
pub mod Least
use just_library.Base.{ℕ, ◌+◌, ◌-◌, ◌/◌, ◌^◌, bit_or, ltb, leb, ◌==◌, if◌then◌else◌, add_size}

-- `N |= N >> k`
abbrev pub or_shift : ℕ → ℕ → ℕ
or_shift k n = bit_or n (n / 2 ^ k)

-- `N |= N >> 1; ... N |= N >> 32;`
unfoldable pub smear : ℕ → ℕ
smear n = or_shift 32 (or_shift 16 (or_shift 8 (or_shift 4 (or_shift 2 (or_shift 1 n)))))

-- `N--; smear; N++;` at `N != 0`
unfoldable pub round_up : ℕ → ℕ
round_up n = add_size (smear (n - 1)) 1

-- `justRingNextPowerOfTwo`
unfoldable pub ring_next_power_of_two : ℕ → ℕ
ring_next_power_of_two n = if leb n 1 then 1 else round_up n

-- `justQueueRoundToPowerOfTwo`; 8 is JUST_QUEUE_DEFAULT_GROWTH_CAPACITY
unfoldable pub queue_round_to_power_of_two : ℕ → ℕ
queue_round_to_power_of_two n = if n == 0 then 0 else if ltb n 8 then 8 else round_up n

-- `justMapNextPowerOfTwo`; 16 is JUST_MAP_DEFAULT_CAPACITY
unfoldable pub map_next_power_of_two : ℕ → ℕ
map_next_power_of_two n = if ltb n 16 then 16 else round_up n
