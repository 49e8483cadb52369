-- ===== src/ObjectPool.antt =====
-- include/justUtils/memory/objectPool.h and src/memory/objectPool.c, as built without DEBUG: slots of
-- one size, with the free ones linked through their own bytes.
-- An object is its byte offset in the backing memory. The memory is the `size_t` that stands at each
-- offset where a slot starts; a slot is wide enough for one, so slots do not share one.
pub mod Slots
pub mod Valid
pub mod Create
pub mod Steps
use just_library.Base.{
  ℕ, zero, suc, ◌+◌, ◌-◌, ◌^◌, Bool, true, false, ◌&&◌, Option, none, some, bit_and, add_size,
  sub_size, mul_size, not_size, size_max, if◌then◌else◌, ◌==◌, ltb, is_some, not,
}

-- `JUST_POOL_END_OF_LIST`
abbrev pub end_of_list : ℕ
end_of_list = size_max

-- the first word of each slot, by its byte offset
abbrev pub Words : Type 0
Words = ℕ → ℕ

abbrev pub store_word : Words → ℕ → ℕ → Words
store_word w offset x = λ other. if other == offset then x else w other

-- `JustObjectPool`
pub record ObjectPool : Type 0 where
  pub stride : ℕ
  pub object_size : ℕ
  pub capacity : ℕ
  pub free_list_offset : ℕ
  pub free_count : ℕ
  pub memory : Option Words
  pub owns_memory : Bool

-- `minSlotSize`, and `stride` from it; `alignof(max_align_t)` is 16
abbrev pub min_slot_size : ℕ → ℕ
min_slot_size object_size = if ltb object_size 8 then 8 else object_size

unfoldable pub stride_of : ℕ → ℕ → ℕ
stride_of object_size alignment =
    let al = if alignment == 0 then 16 else alignment in
    bit_and (add_size (min_slot_size object_size) (sub_size al 1)) (not_size (sub_size al 1))

-- The loop of `justObjectPoolCreate` that links the slots, from slot `i` on.
unfoldable pub wire : ℕ → ℕ → ℕ → Words → Words
wire stride zero i w = w
wire stride (suc n) i w =
    wire stride n (i + 1) (store_word w (mul_size i stride) (mul_size (i + 1) stride))

unfoldable pub wired : ℕ → ℕ → Words → Words
wired stride capacity w =
    store_word (wire stride (sub_size capacity 1) 0 w) (mul_size (sub_size capacity 1) stride)
      end_of_list

-- `justObjectPoolTakeObject`: the object, or `none` for NULL. A pool without memory is asserted
-- against.
unfoldable pub take_from : ObjectPool → Option Words → Option ℕ × ObjectPool
take_from p none = (none, p)
take_from p (some w) = (
  some p.free_list_offset,
  record p { free_list_offset = w p.free_list_offset; free_count = sub_size p.free_count 1 },
)

unfoldable pub take_object : ObjectPool → Option ℕ × ObjectPool
take_object p =
    let popped = take_from p p.memory in
    if p.free_list_offset == end_of_list then (none, p) else popped

-- `justObjectPoolReturnObject`
unfoldable pub return_object : ObjectPool → ℕ → ObjectPool
return_object p object = record p {
  memory = elim p.memory [ none ↦ none | some w ↦ some (store_word w object p.free_list_offset) ];
  free_list_offset = object;
  free_count = add_size p.free_count 1;
}

-- `justObjectPoolIsEmpty`, `justObjectPoolIsFull`
unfoldable pub is_empty : ObjectPool → Bool
is_empty p = p.free_count == p.capacity

unfoldable pub is_full : ObjectPool → Bool
is_full p = p.free_count == 0

-- the tracked `malloc` and `free` of the backing memory
module _ {Store : Type 0} (tracked_malloc : ℕ → Store → Option Words × Store)
    (tracked_free : Words → Store → Store) where
  -- `justObjectPoolCreate` on the fields that `p` had, from the memory that it got
  unfoldable pub finish_create : ObjectPool → Option Words × Store → Bool × ObjectPool × Store
  finish_create p (none, s) = (false, record p { memory = none }, s)
  finish_create p (some w, s) = (
    true,
    record p {
      free_list_offset = 0;
      free_count = p.capacity;
      memory = some (wired p.stride p.capacity w);
    },
    s,
  )

  -- `justObjectPoolCreate`; USER_MEMORY is `none` for NULL
  unfoldable pub create : ObjectPool → ℕ → ℕ → ℕ → Option Words → Store → Bool × ObjectPool × Store
  create p capacity object_size alignment user_memory s =
      let stride = stride_of object_size alignment in
      let sized = record p {
        stride = stride;
        object_size = object_size;
        capacity = capacity;
        owns_memory = not (is_some user_memory);
      } in
      elim user_memory [
        | none ↦ finish_create sized (tracked_malloc (mul_size capacity stride) s)
        | some w ↦ finish_create sized (some w, s)
      ]

  -- `justObjectPoolDestroy`
  unfoldable pub destroy : ObjectPool → Store → ObjectPool × Store
  destroy p s = (
    record {
      stride = 0;
      object_size = 0;
      capacity = 0;
      free_list_offset = end_of_list;
      free_count = 0;
      memory = none;
      owns_memory = false;
    },
    elim p.memory [ none ↦ s | some w ↦ if p.owns_memory then tracked_free w s else s ],
  )
