-- ===== src/Queue/Valid.antt =====
-- The representation invariant of the queue, and the elements that it holds.
use just_library.Base.{
  ℕ, ◌+◌, ◌-◌, ◌%◌, ◌^◌, ◌≤◌, ◌<◌, ◌≡◌, ◌⊎◌, ap, ◌∙◌, none, some, List, length, arith, bit_and,
  add_size, size_mod,
}
use just_library.Base.Pow.{pow-pos, pow-lt}
use just_library.Base.Bits.{bit_and_mask}
use just_library.Circular.{Holds}
use just_library.Queue.{Queue, next_index}

-- `q` has a block of `2 ^ exponent` slots that holds the elements `xs`, oldest first.
pub record Usable {A : Type 0} (q : Queue A) (xs : List A) : Type 0 where
  pub buffer : List A
  pub exponent : ℕ
  pub present : q.block ≡ some buffer
  pub small : exponent < 64
  pub power : q.capacity ≡ 2 ^ exponent
  pub masked : q.mask ≡ q.capacity - 1
  pub room : q.capacity ≤ length buffer
  pub head_in : q.head < q.capacity
  pub tail_after : q.tail ≡ (q.head + length xs) % q.capacity
  pub holds : Holds buffer q.capacity q.head xs

-- A queue with no block has no capacity.
pub record Unallocated {A : Type 0} (q : Queue A) : Type 0 where
  pub absent : q.block ≡ none
  pub nothing : q.capacity ≡ 0

pub record Models {A : Type 0} (q : Queue A) (xs : List A) : Type 0 where
  pub counted : q.size ≡ length xs
  pub fits : length xs ≤ q.capacity
  pub stored : Usable q xs ⊎ Unallocated q

module _ {A : Type 0} {q : Queue A} {xs : List A} (v : Usable q xs) where
  pub capacity-pos : 0 < q.capacity
  capacity-pos = omega (arith, v.power, pow-pos v.exponent)

  pub capacity-lt : q.capacity < size_mod
  capacity-lt = omega (arith, v.power, pow-lt v.exponent 64 v.small)

  -- The masked increment is the increment modulo the capacity, and does not wrap.
  pub next_index-eq : (i : ℕ) → i < q.capacity → next_index q i ≡ (i + 1) % q.capacity
  next_index-eq i h =
      ap (bit_and (add_size i 1)) masks
      ∙ bit_and_mask v.exponent (add_size i 1)
      ∙ (let e : add_size i 1 ≡ i + 1 = omega (arith, capacity-lt) in rw (e, v.power))
    where
      masks : q.mask ≡ 2 ^ v.exponent - 1
      masks = omega (arith, v.masked, v.power)
