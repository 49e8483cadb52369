-- ===== src/LinearAlloc.antt =====
-- include/justUtils/memory/linearAlloc.h and src/memory/linearAlloc.c: a bump allocator.
-- A pointer is its address, a number below 2 ^ 64, and NULL is 0. `alignof(max_align_t)` is 16.
-- The tracked `malloc` and `free` of the backing buffer are parameters; the debug print is left out.
pub mod Bump
pub mod Wrap
pub mod Stacked
pub mod Live
use just_library.Base.{
  ℕ, ◌+◌, ◌-◌, ◌^◌, Bool, true, false, ◌&&◌, not, bit_and, add_size, sub_size, not_size,
  if◌then◌else◌, ◌==◌, ltb, leb,
}

-- `JustLinearAllocator`
pub record LinearAllocator : Type 0 where
  pub memory : ℕ
  pub total_size : ℕ
  pub allocated : ℕ
  pub owns_memory : Bool

-- `justlinearAllocIsPowerOfTwo`
unfoldable pub is_power_of_two : ℕ → Bool
is_power_of_two x = not (x == 0) && bit_and x (sub_size x 1) == 0

-- the alignment in use, by ALIGNMENT
abbrev pub alignment_of : ℕ → ℕ
alignment_of wanted = if wanted == 0 then 16 else wanted

-- `currentPtr`, `alignedPtr` and `padding`, at an alignment that is not 0
abbrev pub current : LinearAllocator → ℕ
current a = add_size a.memory a.allocated

unfoldable pub aligned : LinearAllocator → ℕ → ℕ
aligned a al = bit_and (add_size (current a) (sub_size al 1)) (not_size (sub_size al 1))

unfoldable pub padding : LinearAllocator → ℕ → ℕ
padding a al = sub_size (aligned a al) (current a)

-- `justLinearAllocAllocate`
unfoldable pub allocate : LinearAllocator → ℕ → ℕ → ℕ × LinearAllocator
allocate a size wanted =
    if size == 0
    then (0, a)
    else let al = alignment_of wanted in
      let pad = padding a al in
      if ltb a.total_size (add_size (add_size a.allocated pad) size)
      then (0, a)
      else (aligned a al, record a { allocated = add_size a.allocated (add_size pad size) })

-- `justLinearAllocReset`, `justLinearAllocGetMarker`, `justLinearAllocRewind`
unfoldable pub reset : LinearAllocator → LinearAllocator
reset a = record a { allocated = 0 }

unfoldable pub get_marker : LinearAllocator → ℕ
get_marker a = a.allocated

unfoldable pub rewind : LinearAllocator → ℕ → LinearAllocator
rewind a marker = if leb marker a.allocated then record a { allocated = marker } else a

-- `justLinearAllocGetUsed`, `justLinearAllocGetRemaining`
unfoldable pub get_used : LinearAllocator → ℕ
get_used a = a.allocated

unfoldable pub get_remaining : LinearAllocator → ℕ
get_remaining a = sub_size a.total_size a.allocated

-- the heap of the backing buffer: `tracked_malloc` returns the address, 0 for a refusal
module _ {Store : Type 0} (tracked_malloc : ℕ → Store → ℕ × Store)
    (tracked_free : ℕ → Store → Store) where
  -- `justLinearAllocCreate`, from what the allocation returned
  unfoldable pub finish_create : ℕ → ℕ × Store → Bool × LinearAllocator × Store
  finish_create total (address, s) = (
    not (address == 0),
    record { memory = address; total_size = total; allocated = 0; owns_memory = true },
    s,
  )

  -- `justLinearAllocCreate`; USER_BUFFER is 0 for NULL
  unfoldable pub create : ℕ → ℕ → Store → Bool × LinearAllocator × Store
  create total user_buffer s =
      if user_buffer == 0 then finish_create total (tracked_malloc total s) else (
        true,
        record { memory = user_buffer; total_size = total; allocated = 0; owns_memory = false },
        s,
      )

  -- `justLinearAllocDestroy`
  unfoldable pub destroy : LinearAllocator → Store → LinearAllocator × Store
  destroy a s = (
    record { memory = 0; total_size = 0; allocated = 0; owns_memory = false },
    (if a.owns_memory && not (a.memory == 0) then tracked_free a.memory s else s),
  )
