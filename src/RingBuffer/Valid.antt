-- ===== src/RingBuffer/Valid.antt =====
-- The representation invariant of the ring buffer, and the elements that it holds.
use just_library.Base.{
  ℕ, ◌+◌, ◌-◌, ◌%◌, ◌^◌, ◌≤◌, ◌<◌, ◌≡◌, ap, ◌∙◌, some, List, length, arith, bit_and, add_size,
  size_mod,
}
use just_library.Base.Pow.{pow-pos, pow-lt}
use just_library.Base.Bits.{bit_and_mask}
use just_library.Circular.{Holds}
use just_library.RingBuffer.{RingBuffer, next_index}

-- `r` is a usable ring of `2 ^ exponent` slots that holds the elements `xs`, oldest first.
pub record Models {A : Type 0} (r : RingBuffer A) (xs : List A) : Type 0 where
  pub buffer : List A
  pub exponent : ℕ
  pub present : r.block ≡ some buffer
  pub small : exponent < 64
  pub power : r.capacity ≡ 2 ^ exponent
  pub masked : r.mask ≡ r.capacity - 1
  pub room : r.capacity ≤ length buffer
  pub tail_in : r.tail < r.capacity
  pub counted : r.count ≡ length xs
  pub fits : length xs ≤ r.capacity
  pub head_after : r.head ≡ (r.tail + length xs) % r.capacity
  pub holds : Holds buffer r.capacity r.tail xs

module _ {A : Type 0} {r : RingBuffer A} {xs : List A} (v : Models r xs) where
  pub capacity-pos : 0 < r.capacity
  capacity-pos = omega (arith, v.power, pow-pos v.exponent)

  pub capacity-lt : r.capacity < size_mod
  capacity-lt = omega (arith, v.power, pow-lt v.exponent 64 v.small)

  -- The masked increment is the increment modulo the capacity, and does not wrap.
  pub next_index-eq : (i : ℕ) → i < r.capacity → next_index r i ≡ (i + 1) % r.capacity
  next_index-eq i h =
      ap (bit_and (add_size i 1)) masks
      ∙ bit_and_mask v.exponent (add_size i 1)
      ∙ (let e : add_size i 1 ≡ i + 1 = omega (arith, capacity-lt) in rw (e, v.power))
    where
      masks : r.mask ≡ 2 ^ v.exponent - 1
      masks = omega (arith, v.masked, v.power)
