-- ===== src/RingBuffer.antt =====
-- include/justUtils/dataStructures/ringBuffer.h and src/dataStructures/ringBuffer.c.
-- An element is moved whole, so the block is a list of element slots and a pointer to a slot is its
-- index; `memcpy` of `elementSize` bytes is a read or a write of one slot. The struct behind the
-- `RING` argument is threaded through: a function returns it beside its result. NULL arguments,
-- which the debug assertions exclude, are not represented, and neither is the tag.
pub mod Valid
pub mod Refine
pub mod Create
pub mod Fifo
use just_library.Base.{
  ℕ, ◌-◌, Bool, true, false, Option, none, some, List, bit_and, set, add_size, sub_size, mul_size,
  if◌then◌else◌, ◌==◌,
}
use just_library.Memory.{Memory, allocate, free_unless_linear, read}
use just_library.PowerOfTwo.{ring_next_power_of_two}

-- `JustRingBuffer`; `data` is `none` for NULL, `linear` says whether `allocator` is set.
pub record RingBuffer (A : Type 0) : Type 0 where
  pub block : Option (List A)
  pub capacity : ℕ
  pub mask : ℕ
  pub element_size : ℕ
  pub head : ℕ
  pub tail : ℕ
  pub count : ℕ
  pub allow_overwrite : Bool
  pub linear : Bool

module _ {A : Type 0} where
  -- `justRingBufferCreate`
  module _ (m : Memory A) where
    open m use {Store}

    -- the end of the function, on what the allocation returned
    finish_create : RingBuffer A → Option (List A) × Store → Bool × RingBuffer A × Store
    finish_create r (none, s) = (false, record r { capacity = 0; mask = 0 }, s)
    finish_create r (some block, s) = (true, record r { block = some block }, s)

    unfoldable pub create : ℕ → ℕ → Bool → Bool → Store → Bool × RingBuffer A × Store
    unfolding finish_create
    create wanted element_size allow_overwrite linear s =
        let capacity = ring_next_power_of_two wanted in
        finish_create
          (record {
            block = none;
            capacity = capacity;
            mask = sub_size capacity 1;
            element_size = element_size;
            head = 0;
            tail = 0;
            count = 0;
            allow_overwrite = allow_overwrite;
            linear = linear;
          })
          (allocate m linear element_size (mul_size capacity element_size) s)

    -- `justRingBufferDestroy`
    unfoldable pub destroy : RingBuffer A → Store → RingBuffer A × Store
    destroy r s = (
      record r {
        block = none;
        capacity = 0;
        mask = 0;
        element_size = 0;
        head = 0;
        tail = 0;
        count = 0;
        linear = false;
      },
      free_unless_linear m r.linear r.block s,
    )

  -- `(INDEX + 1) & RING->mask`
  abbrev pub next_index : RingBuffer A → ℕ → ℕ
  next_index r i = bit_and (add_size i 1) r.mask

  -- the overwriting branch of `justRingBufferEmplace`: the oldest element is given up
  unfoldable pub drop_oldest : RingBuffer A → RingBuffer A
  drop_oldest r = record r { tail = next_index r r.tail; count = sub_size r.count 1 }

  -- the last four lines of `justRingBufferEmplace`; the pointer is NULL where the block is
  unfoldable pub claim : RingBuffer A → Option ℕ × RingBuffer A
  claim r = (
    elim r.block [ none ↦ none | some b ↦ some r.head ],
    record r { head = next_index r r.head; count = add_size r.count 1 },
  )

  -- `justRingBufferEmplace`: the slot to write, or NULL
  unfoldable pub emplace : RingBuffer A → Option ℕ × RingBuffer A
  emplace r =
      if r.count == r.capacity
      then (if r.allow_overwrite then claim (drop_oldest r) else (none, r))
      else claim r

  -- `memcpy(slot, ITEM_PTR, RING->elementSize)`
  abbrev pub store_at : RingBuffer A → ℕ → A → RingBuffer A
  store_at r i x = record r { block = elim r.block [ none ↦ none | some b ↦ some (set b i x) ] }

  -- `if (!slot) return false; memcpy(...); return true;`
  unfoldable pub write_slot : A → Option ℕ × RingBuffer A → Bool × RingBuffer A
  write_slot x (none, r) = (false, r)
  write_slot x (some i, r) = (true, store_at r i x)

  -- `justRingBufferPush`
  unfoldable pub push : RingBuffer A → A → Bool × RingBuffer A
  push r x = write_slot x (emplace r)

  -- `justRingBufferPop`; `wanted` says whether OUT_ITEM_PTR is set, and the option is what was
  -- copied there
  unfoldable pub pop : RingBuffer A → Bool → Bool × Option A × RingBuffer A
  pop r wanted = if r.count == 0 then (false, none, r) else (
    true,
    (if wanted then read r.block r.tail else none),
    record r { tail = next_index r r.tail; count = sub_size r.count 1 },
  )

  -- `justRingBufferPeek`: the slot of the oldest element, or NULL
  unfoldable pub peek : RingBuffer A → Option ℕ
  peek r = if r.count == 0 then none else some r.tail

  -- `*ptr` at what `justRingBufferPeek` returned
  abbrev pub peeked : RingBuffer A → Option ℕ → Option A
  peeked r none = none
  peeked r (some i) = read r.block i

  -- `justRingBufferClear`
  unfoldable pub clear : RingBuffer A → RingBuffer A
  clear r = record r { head = 0; tail = 0; count = 0 }

  -- `justRingBufferIsEmpty`, `justRingBufferIsFull`, `justRingBufferSize`,
  -- `justRingBufferCapacity`
  unfoldable pub is_empty : RingBuffer A → Bool
  is_empty r = r.count == 0

  unfoldable pub is_full : RingBuffer A → Bool
  is_full r = r.count == r.capacity

  unfoldable pub size : RingBuffer A → ℕ
  size r = r.count

  unfoldable pub capacity_of : RingBuffer A → ℕ
  capacity_of r = r.capacity
