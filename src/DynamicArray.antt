-- ===== src/DynamicArray.antt =====
-- include/justUtils/dataStructures/dynamicArray.h and src/dataStructures/dynamicArray.c.
-- The block is a list of element slots and a pointer to a slot is its index; `memcpy` of elements
-- is `copy`. NULL arguments and the tag are not represented.
pub mod Valid
pub mod Reserve
pub mod Push
use just_library.Base.{
  ℕ, ◌+◌, ◌-◌, Bool, true, false, not, Option, none, some, List, [], ◌∷◌, set, copy, add_size,
  sub_size, mul_size, if◌then◌else◌, ◌==◌, ltb, leb, is_some,
}
use just_library.Memory.{Memory, allocate, free_unless_linear, read}

-- `JustDynamicArray`; `block` is the field `data`, `none` for NULL; `linear` says whether
-- `allocator` is set.
pub record DynamicArray (A : Type 0) : Type 0 where
  pub block : Option (List A)
  pub capacity : ℕ
  pub size : ℕ
  pub element_size : ℕ
  pub linear : Bool

module _ {A : Type 0} where
  -- the slots behind `data`
  abbrev pub slots : Option (List A) → List A
  slots none = []
  slots (some block) = block

  -- `newCapacity` in `justDynamicArrayReserve`
  unfoldable pub new_capacity : DynamicArray A → ℕ → ℕ
  new_capacity a wanted =
      let doubled = mul_size a.capacity 2 in if ltb doubled wanted then wanted else doubled

  -- `DARRAY->capacity ? (DARRAY->capacity * 2) : JUST_DARRAY_DEFAULT_GROWTH_CAPACITY`
  unfoldable pub grow_target : DynamicArray A → ℕ
  grow_target a = if a.capacity == 0 then 8 else mul_size a.capacity 2

  -- `memcpy` of `n` elements to slot `i`
  abbrev pub write_at : DynamicArray A → ℕ → ℕ → List A → DynamicArray A
  write_at a n i source = record a {
    block = elim a.block [ none ↦ none | some b ↦ some (copy n b i source 0) ];
  }

  -- `justDynamicArrayPop`; `wanted` says whether OUT_VALUE_PTR is set
  unfoldable pub pop : DynamicArray A → Bool → Bool × Option A × DynamicArray A
  pop a wanted = if a.size == 0 then (false, none, a) else (
    true,
    (if wanted then read a.block (sub_size a.size 1) else none),
    record a { size = sub_size a.size 1 },
  )

  -- `justDynamicArrayAt`: the slot, unchecked where assertions are off
  unfoldable pub at : DynamicArray A → ℕ → ℕ
  at a i = i

  -- `justDynamicArrayClear`
  unfoldable pub clear : DynamicArray A → DynamicArray A
  clear a = record a { size = 0 }

  -- `justDynamicArraySize`, `justDynamicArrayCapacity`, `justDynamicArrayIsEmpty`
  unfoldable pub size_of : DynamicArray A → ℕ
  size_of a = a.size

  unfoldable pub capacity_of : DynamicArray A → ℕ
  capacity_of a = a.capacity

  unfoldable pub is_empty : DynamicArray A → Bool
  is_empty a = a.size == 0

  module _ (m : Memory A) where
    open m use {Store, linear_allocate, tracked_malloc, tracked_realloc, tracked_free}

    -- `justDynamicArrayCreate`, on what the allocation returned
    unfoldable pub finish_create :
        DynamicArray A → Option (List A) × Store → Bool × DynamicArray A × Store
    finish_create a (none, s) = (false, record a { capacity = 0 }, s)
    finish_create a (some block, s) = (true, record a { block = some block }, s)

    unfoldable pub create : ℕ → ℕ → Bool → Store → Bool × DynamicArray A × Store
    create wanted element_size linear s =
        let a : DynamicArray A = record {
          block = none;
          capacity = wanted;
          size = 0;
          element_size = element_size;
          linear = linear;
        } in
        if wanted == 0
        then (true, a, s)
        else finish_create a (allocate m linear element_size (mul_size wanted element_size) s)

    -- `justDynamicArrayDestroy`
    unfoldable pub destroy : DynamicArray A → Store → DynamicArray A × Store
    destroy a s = (
      record a { block = none; capacity = 0; size = 0; element_size = 0; linear = false },
      free_unless_linear m a.linear a.block s,
    )

    -- the branch of a linear allocator: a new block, with the elements copied over
    unfoldable pub carry : DynamicArray A → Option (List A) × Store → Option (List A) × Store
    carry a (none, s) = (none, s)
    carry a (some fresh, s) = (some (copy a.size fresh 0 (slots a.block) 0), s)

    -- the branch of the heap: `malloc` without a block, `realloc` with one
    unfoldable pub resize_heap : Option (List A) → ℕ → ℕ → Store → Option (List A) × Store
    resize_heap none e b s = tracked_malloc e b s
    resize_heap (some old) e b s = tracked_realloc old e b s

    -- `newData` in `justDynamicArrayReserve`, for a block of `bytes` bytes
    unfoldable pub resize : DynamicArray A → ℕ → Store → Option (List A) × Store
    resize a bytes s =
        if a.linear
        then carry a (linear_allocate a.element_size bytes s)
        else resize_heap a.block a.element_size bytes s

    -- the end of both functions that resize: fail, or take the new block and capacity
    unfoldable pub finish_resize :
        DynamicArray A → ℕ → Option (List A) × Store → Bool × DynamicArray A × Store
    finish_resize a c (none, s) = (false, a, s)
    finish_resize a c (some block, s) = (true, record a { block = some block; capacity = c }, s)

    -- `justDynamicArrayReserve`
    unfoldable pub reserve : DynamicArray A → ℕ → Store → Bool × DynamicArray A × Store
    reserve a wanted s =
        if leb wanted a.capacity
        then (true, a, s)
        else finish_resize a (new_capacity a wanted)
            (resize a (mul_size (new_capacity a wanted) a.element_size) s)

    -- `__justDynamicArrayGrow`
    unfoldable pub grow : DynamicArray A → Store → Bool × DynamicArray A × Store
    grow a s = reserve a (grow_target a) s

    -- the end of `justDynamicArrayPushRange`, on what the reservation returned
    unfoldable pub append_range :
        List A → ℕ → Bool × DynamicArray A × Store → Bool × DynamicArray A × Store
    append_range source n (false, a, s) = (false, a, s)
    append_range source n (true, a, s) =
        (true, record (write_at a n a.size source) { size = add_size a.size n }, s)

    -- `justDynamicArrayPushRange`; SRC_BUFFER is `none` for NULL
    unfoldable pub push_range :
        DynamicArray A → Option (List A) → ℕ → Store → Bool × DynamicArray A × Store
    push_range a none n s = (true, a, s)
    push_range a (some source) n s =
        if n == 0
        then (true, a, s)
        else append_range source n (
            let required = add_size a.size n in
            if ltb a.capacity required then reserve a required s else (true, a, s))

    -- the branch of `justDynamicArrayShrinkToFit` for an array of no elements
    unfoldable pub release : DynamicArray A → Store → Bool × DynamicArray A × Store
    release a s = (
      true,
      record a { block = none; capacity = 0 },
      elim a.block [ none ↦ s | some b ↦ tracked_free b s ],
    )

    -- `justDynamicArrayShrinkToFit`
    unfoldable pub shrink_to_fit : DynamicArray A → Store → Bool × DynamicArray A × Store
    shrink_to_fit a s =
        if a.linear
        then (false, a, s)
        else if a.size == a.capacity
        then (true, a, s)
        else if a.size == 0
        then release a s
        else finish_resize a a.size
            (resize_heap a.block a.element_size (mul_size a.size a.element_size) s)

    -- the end of `justDynamicArrayEmplace`; the pointer is NULL where the block is
    unfoldable pub claim : Bool × DynamicArray A × Store → Option ℕ × DynamicArray A × Store
    claim (false, a, s) = (none, a, s)
    claim (true, a, s) = (
      elim a.block [ none ↦ none | some b ↦ some a.size ],
      record a { size = add_size a.size 1 },
      s,
    )

    -- `justDynamicArrayEmplace`
    unfoldable pub emplace : DynamicArray A → Store → Option ℕ × DynamicArray A × Store
    emplace a s = claim (if leb a.capacity a.size then grow a s else (true, a, s))

    unfoldable pub write_slot :
        A → Option ℕ × DynamicArray A × Store → Bool × DynamicArray A × Store
    write_slot x (none, a, s) = (false, a, s)
    write_slot x (some i, a, s) = (true, write_at a 1 i (x ∷ []), s)

    -- `justDynamicArrayPush`
    unfoldable pub push : DynamicArray A → A → Store → Bool × DynamicArray A × Store
    push a x s = write_slot x (emplace a s)
