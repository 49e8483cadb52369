-- ===== src/Memory.antt =====
-- What the containers ask of the memory modules: `justLinearAllocAllocate(allocator, bytes, 0)`
-- for a container that was given a linear allocator, and the tracked `malloc`, `realloc` and
-- `free` (include/justUtils/memory/tracker.h) for one that was not.
-- A block is the list of the element slots that fit its bytes. What a new block holds is left
-- open: the memory is not initialised.
use just_library.Base.{
  ℕ, ◌/◌, ◌<◌, ◌≡◌, Bool, true, false, Option, none, some, List, length, get_elem?,
}

pub record Memory (A : Type 0) : Type 1 where
  pub Store : Type 0
  -- the size of an element, the bytes wanted
  pub linear_allocate : ℕ → ℕ → Store → Option (List A) × Store
  pub tracked_malloc : ℕ → ℕ → Store → Option (List A) × Store
  pub tracked_realloc : List A → ℕ → ℕ → Store → Option (List A) × Store
  pub tracked_free : List A → Store → Store
  -- a block has room for as many elements as its bytes hold
  pub linear-length :
      (e b : ℕ) (s s' : Store) (block : List A)
      → linear_allocate e b s ≡ (some block, s')
      → length block ≡ b / e
  pub malloc-length :
      (e b : ℕ) (s s' : Store) (block : List A)
      → tracked_malloc e b s ≡ (some block, s')
      → length block ≡ b / e
  pub realloc-length :
      (old : List A) (e b : ℕ) (s s' : Store) (block : List A)
      → tracked_realloc old e b s ≡ (some block, s')
      → length block ≡ b / e
  -- `realloc` keeps what fits both blocks
  pub realloc-keeps :
      (old : List A) (e b : ℕ) (s s' : Store) (block : List A) (i : ℕ)
      → tracked_realloc old e b s ≡ (some block, s')
      → i < length old
      → i < length block
      → get_elem? block i ≡ get_elem? old i

module _ {A : Type 0} (m : Memory A) where
  open m use {Store, linear_allocate, tracked_malloc, tracked_free, linear-length, malloc-length}

  -- `allocator ? justLinearAllocAllocate(allocator, bytes, 0) : JUST_MALLOC_TAGGED(bytes, tag)`
  unfoldable pub allocate : Bool → ℕ → ℕ → Store → Option (List A) × Store
  allocate true e b s = linear_allocate e b s
  allocate false e b s = tracked_malloc e b s

  -- `if (data && !allocator) JUST_FREE(data)`
  unfoldable pub free_unless_linear : Bool → Option (List A) → Store → Store
  free_unless_linear false (some block) s = tracked_free block s
  free_unless_linear _ _ s = s

  pub allocate-length :
      (linear : Bool) (e b : ℕ) (s s' : Store) (block : List A)
      → allocate linear e b s ≡ (some block, s')
      → length block ≡ b / e
  unfolding allocate
  allocate-length true e b s s' block h = linear-length e b s s' block h
  allocate-length false e b s s' block h = malloc-length e b s s' block h

-- `data[i]`; `none` for a read through NULL or past the block
abbrev pub read {ℓ} : {A : Type ℓ} → Option (List A) → ℕ → Option A
read none i = none
read (some block) i = get_elem? block i
