-- ===== src/LinearAlloc/Wrap.antt =====
-- The size check of `justLinearAllocAllocate` at the top of the range of `size_t`.
use just_library.Base.{
  ℕ, ◌+◌, ◌-◌, ◌%◌, ◌^◌, ◌≤◌, ◌<◌, ◌≡◌, ◌≢◌, refl, arith, false, ltb, ◌==◌, add_size, size_mod,
}
use just_library.Base.Align.{FirstMultiple}
use just_library.Base.Pow.{pow-pos}
use just_library.LinearAlloc.{LinearAllocator, allocate, aligned, padding}
use just_library.LinearAlloc.Bump.{
  IsValid, Allocated, granted, exhausted, allocate-Allocated, aligned-FirstMultiple,
}

wrapped :
    (a : LinearAllocator) (al : ℕ)
    → (al == 0) ≡ false
    → 0 < a.allocated
    → a.allocated + padding a al < size_mod
    → allocate a (size_mod - (a.allocated + padding a al)) al
      ≡ (aligned a al, record a { allocated = 0 })
unfolding allocate
wrapped a al given used small =
    let pad = padding a al in
    let size = size_mod - (a.allocated + pad) in
    let nonzero : (size == 0) ≡ false = ground arith in
    let fits : ltb a.total_size (add_size (add_size a.allocated pad) size) ≡ false = ground arith in
    let none_left : add_size a.allocated (add_size pad size) ≡ 0 = omega arith in
    simp (nonzero, given, fits, none_left) refl

-- On an empty valid allocator whose buffer starts at a multiple of the alignment, a request that
-- fits is given the start of the buffer.
from_start :
    (a : LinearAllocator) (n k : ℕ)
    → IsValid a
    → a.allocated ≡ 0
    → a.memory % 2 ^ k ≡ 0
    → 0 < n
    → n ≤ a.total_size
    → k < 64
    → a.memory + a.total_size + n + 2 ^ k < size_mod
    → (allocate a n (2 ^ k)).0 ≡ a.memory
from_start a n k v e multiple pos fits h room =
    place (allocate a n (2 ^ k)) (allocate-Allocated a n k v pos h room)
  where
    place : (r : ℕ × LinearAllocator) → Allocated a n (2 ^ k) r → r.0 ≡ a.memory
    place (p, a') (granted first ends m t w) =
        let least = first.3 a.memory multiple (omega arith) in let behind = first.1 in omega arith
    place (p, a') (exhausted full) = absurd (omega (arith, full a.memory multiple (omega arith)))

-- On a valid allocator of a buffer that starts at a multiple of the alignment and not at address 0,
-- and of which something is in use: a request of 2 ^ 64 bytes less the offset and the padding is
-- granted the first aligned address behind the offset, which is not NULL, although a block of that
-- size ends behind the buffer there; and a next request, of at most as many bytes as were in use, is
-- given the start of the buffer, which is in use.
pub allocate_wraps :
    (a : LinearAllocator) (n k : ℕ)
    → IsValid a
    → 0 < a.memory
    → a.memory % 2 ^ k ≡ 0
    → 0 < n
    → n ≤ a.allocated
    → k < 64
    → a.memory + a.total_size + n + 2 ^ k < size_mod
    → (let size = size_mod - (a.allocated + padding a (2 ^ k)) in
        let (p, a') = allocate a size (2 ^ k) in
        FirstMultiple (a.memory + a.allocated) (2 ^ k) p
        × (p ≢ 0)
        × (a.memory + a.total_size < p + size)
        × ((allocate a' n (2 ^ k)).0 ≡ a.memory))
allocate_wraps a n k v address multiple pos used h room =
    let (first, gap) = aligned-FirstMultiple a k v h (omega arith) in
    let behind = first.1 in
    let near = first.2 in
    let bounded = v.bounded in
    let given : (2 ^ k == 0) ≡ false = ground (arith, pow-pos k) in
    let after : LinearAllocator = record a { allocated = 0 } in
    let again =
      from_start after n k (record { bounded = omega arith; addressed = v.addressed }) refl multiple
        pos (omega arith) h room in
    rw (wrapped a (2 ^ k) given (omega arith) (omega arith))
      (first, ground arith, omega arith, again)
