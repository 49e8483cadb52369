-- ===== src/Queue.antt =====
-- include/justUtils/dataStructures/queue.h and src/dataStructures/queue.c.
-- As in the ring buffer, the block is a list of element slots, a pointer to a slot is its index,
-- the struct is threaded through, and NULL arguments and the tag are not represented. Functions
-- that may allocate or free also thread the store of the memory modules.
pub mod Valid
pub mod Reserve
pub mod Grow
pub mod Refine
pub mod Overrun
use just_library.Base.{
  ℕ, ◌+◌, ◌-◌, ◌*◌, Bool, true, false, not, ◌&&◌, Option, none, some, List, bit_and, set, copy,
  add_size, sub_size, mul_size, if◌then◌else◌, ◌==◌, ltb, leb, is_some,
}
use just_library.Memory.{Memory, allocate, free_unless_linear, read}
use just_library.PowerOfTwo.{queue_round_to_power_of_two}

-- `JustQueue`; `block` is the field `data`, `none` for NULL; `linear` says whether `allocator` is
-- set.
pub record Queue (A : Type 0) : Type 0 where
  pub block : Option (List A)
  pub capacity : ℕ
  pub mask : ℕ
  pub size : ℕ
  pub head : ℕ
  pub tail : ℕ
  pub element_size : ℕ
  pub linear : Bool

module _ {A : Type 0} where
  -- `(INDEX + 1) & QUEUE->mask`
  abbrev pub next_index : Queue A → ℕ → ℕ
  next_index q i = bit_and (add_size i 1) q.mask

  -- `memcpy(slot, VALUE_PTR, QUEUE->elementSize)`
  abbrev pub store_at : Queue A → ℕ → A → Queue A
  store_at q i x = record q { block = elim q.block [ none ↦ none | some b ↦ some (set b i x) ] }

  -- `justQueueDequeue`; `wanted` says whether OUT_VALUE_PTR is set
  unfoldable pub dequeue : Queue A → Bool → Bool × Option A × Queue A
  dequeue q wanted = if q.size == 0 then (false, none, q) else (
    true,
    (if wanted then read q.block q.head else none),
    record q { head = next_index q q.head; size = sub_size q.size 1 },
  )

  -- `justQueuePeek`: the slot of the oldest element, or NULL
  unfoldable pub peek : Queue A → Option ℕ
  peek q = if q.size == 0 then none else some q.head

  -- `justQueueClear`
  unfoldable pub clear : Queue A → Queue A
  clear q = record q { size = 0; head = 0; tail = 0 }

  -- `justQueueSize`, `justQueueCapacity`, `justQueueIsEmpty`
  unfoldable pub size_of : Queue A → ℕ
  size_of q = q.size

  unfoldable pub capacity_of : Queue A → ℕ
  capacity_of q = q.capacity

  unfoldable pub is_empty : Queue A → Bool
  is_empty q = q.size == 0

  -- The copy of `justQueueReserve` into the new block: one `memcpy`, or two round the end.
  unfoldable pub linearize : Queue A → List A → List A → List A
  linearize q old fresh =
      let first = sub_size q.capacity q.head in
      if leb q.size first
      then copy q.size fresh 0 old q.head
      else copy (sub_size q.size first) (copy first fresh 0 old q.head) first old 0

  -- the two statements of `justQueueReserve` that choose the capacity
  abbrev pub target_capacity : Queue A → ℕ → ℕ
  target_capacity q wanted =
      let c = queue_round_to_power_of_two wanted in
      if ltb c q.size then queue_round_to_power_of_two q.size else c

  -- `QUEUE->capacity ? (QUEUE->capacity * 2) : JUST_QUEUE_DEFAULT_GROWTH_CAPACITY`
  unfoldable pub grow_target : Queue A → ℕ
  grow_target q = if q.capacity == 0 then 8 else mul_size q.capacity 2

  module _ (m : Memory A) where
    open m use {Store, tracked_free}

    -- `justQueueCreate`, on what the allocation returned
    finish_create : Queue A → Option (List A) × Store → Bool × Queue A × Store
    finish_create q (none, s) = (false, record q { capacity = 0; mask = 0 }, s)
    finish_create q (some block, s) = (true, record q { block = some block }, s)

    unfoldable pub create : ℕ → ℕ → Bool → Store → Bool × Queue A × Store
    unfolding finish_create
    create wanted element_size linear s =
        let capacity = queue_round_to_power_of_two wanted in
        let q : Queue A = record {
          block = none;
          capacity = capacity;
          mask = sub_size capacity 1;
          size = 0;
          head = 0;
          tail = 0;
          element_size = element_size;
          linear = linear;
        } in
        if capacity == 0
        then (true, q, s)
        else finish_create q (allocate m linear element_size (mul_size capacity element_size) s)

    -- `justQueueDestroy`
    unfoldable pub destroy : Queue A → Store → Queue A × Store
    destroy q s = (
      record q {
        block = none;
        capacity = 0;
        mask = 0;
        size = 0;
        head = 0;
        tail = 0;
        element_size = 0;
        linear = false;
      },
      free_unless_linear m q.linear q.block s,
    )

    -- the branch `newCap == 0`
    unfoldable pub release : Queue A → Store → Bool × Queue A × Store
    release q s = (
      true,
      record q { block = none; capacity = 0; mask = 0; head = 0; tail = 0 },
      free_unless_linear m q.linear q.block s,
    )

    -- the new block, filled; the old one is freed only where there was something to copy
    unfoldable pub move_into : Queue A → Option (List A) → List A → Store → List A × Store
    move_into q none fresh s = (fresh, s)
    move_into q (some old) fresh s =
        if ltb 0 q.size
        then (linearize q old fresh, (if q.linear then s else tracked_free old s))
        else (fresh, s)

    -- the end of `justQueueReserve`, on what the allocation returned
    unfoldable pub finish_reserve : Queue A → ℕ → Option (List A) × Store → Bool × Queue A × Store
    finish_reserve q c (none, s) = (false, q, s)
    finish_reserve q c (some fresh, s) =
        let (block, s') = move_into q q.block fresh s in
        (
          true,
          record q {
            block = some block;
            head = 0;
            tail = q.size;
            capacity = c;
            mask = sub_size c 1;
          },
          s',
        )

    -- `justQueueReserve`
    unfoldable pub reserve : Queue A → ℕ → Store → Bool × Queue A × Store
    reserve q wanted s =
        let c = target_capacity q wanted in
        if c == q.capacity && is_some q.block
        then (true, q, s)
        else if c == 0
        then release q s
        else finish_reserve q c (allocate m q.linear q.element_size (mul_size c q.element_size) s)

    -- `justQueueShrinkToFit`
    unfoldable pub shrink_to_fit : Queue A → Store → Bool × Queue A × Store
    shrink_to_fit q s = reserve q q.size s

    -- the growth in `justQueueEmplace`
    unfoldable pub grow : Queue A → Store → Bool × Queue A × Store
    grow q s = if leb q.capacity q.size then reserve q (grow_target q) s else (true, q, s)

    -- the end of `justQueueEmplace`: the slot to write, or NULL
    unfoldable pub claim : Bool × Queue A × Store → Option ℕ × Queue A × Store
    claim (false, q, s) = (none, q, s)
    claim (true, q, s) = (
      elim q.block [ none ↦ none | some b ↦ some q.tail ],
      record q { tail = next_index q q.tail; size = add_size q.size 1 },
      s,
    )

    -- `justQueueEmplace`
    unfoldable pub emplace : Queue A → Store → Option ℕ × Queue A × Store
    emplace q s = claim (grow q s)

    unfoldable pub write_slot : A → Option ℕ × Queue A × Store → Bool × Queue A × Store
    write_slot x (none, q, s) = (false, q, s)
    write_slot x (some i, q, s) = (true, store_at q i x, s)

    -- `justQueueEnqueue`
    unfoldable pub enqueue : Queue A → A → Store → Bool × Queue A × Store
    enqueue q x s = write_slot x (emplace q s)
