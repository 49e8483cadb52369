-- ===== src/LinearAlloc/Bump.antt =====
-- Where the blocks lie.
use just_library.Base.{
  ℕ, ◌+◌, ◌-◌, ◌*◌, ◌/◌, ◌%◌, ◌^◌, ◌≤◌, ◌<◌, ◌≡◌, refl, sym, arith, false, ltb, ◌==◌, add_size,
  size_mod, Bool-cases, inl, inr, subst,
}
use just_library.Base.Align.{align_up-eq, FirstMultiple, rounded-FirstMultiple}
use just_library.Base.Pow.{pow-pos}
use just_library.LinearAlloc.{LinearAllocator, allocate, aligned, padding, current}

-- The buffer lies in the address space and the offset within the buffer.
pub record IsValid (a : LinearAllocator) : Type 0 where
  pub bounded : a.allocated ≤ a.total_size
  pub addressed : a.memory + a.total_size < size_mod

aligned-eq :
    (a : LinearAllocator) (k : ℕ)
    → k < 64
    → current a + 2 ^ k < size_mod
    → aligned a (2 ^ k) ≡ (current a + 2 ^ k - 1) / 2 ^ k * 2 ^ k
unfolding aligned
aligned-eq a k h fits = align_up-eq (current a) k h fits

-- How a request ends: with the first aligned block behind the offset, or, where that block would
-- not end within the buffer, with the allocator as it was.
pub data Allocated (a : LinearAllocator) (size al : ℕ) : ℕ × LinearAllocator → Type 0 where
  granted :
      {p : ℕ} {a' : LinearAllocator}
      → FirstMultiple (a.memory + a.allocated) al p
      → a'.memory + a'.allocated ≡ p + size
      → a'.memory ≡ a.memory
      → a'.total_size ≡ a.total_size
      → IsValid a'
      → Allocated a size al (p, a')
  exhausted :
      ((p : ℕ) → p % al ≡ 0 → a.memory + a.allocated ≤ p → a.memory + a.total_size < p + size)
      → Allocated a size al (0, a)

padding-eq :
    (a : LinearAllocator) (al c : ℕ)
    → current a ≡ c
    → c ≤ aligned a al
    → aligned a al < size_mod
    → padding a al ≡ aligned a al - c
unfolding padding
padding-eq a al c e h l = omega (arith, e)

-- The aligned address is the first one behind the offset, and the padding is what lies between.
pub aligned-FirstMultiple :
    (a : LinearAllocator) (k : ℕ)
    → IsValid a
    → k < 64
    → a.memory + a.total_size + 2 ^ k < size_mod
    → FirstMultiple (a.memory + a.allocated) (2 ^ k) (aligned a (2 ^ k))
      × (padding a (2 ^ k) ≡ aligned a (2 ^ k) - (a.memory + a.allocated))
aligned-FirstMultiple a k v h fits =
    let c : current a ≡ a.memory + a.allocated = omega (arith, v.bounded) in
    let start =
      subst (λ t. aligned a (2 ^ k) ≡ (t + 2 ^ k - 1) / 2 ^ k * 2 ^ k) c
        (aligned-eq a k h (omega (arith, v.bounded))) in
    let first =
      subst (FirstMultiple (a.memory + a.allocated) (2 ^ k)) (sym start)
        (rounded-FirstMultiple k (a.memory + a.allocated)) in
    (
      first,
      padding-eq a (2 ^ k) (a.memory + a.allocated) c first.1 (omega (arith, first.2, v.bounded)),
    )

-- `justLinearAllocAllocate` on a valid allocator, for a size above 0 and a power of two as
-- alignment, where the sums stay below 2 ^ 64: it hands out the first aligned address behind the
-- offset and moves the offset to the end of that block, which is within the buffer; or no aligned
-- block of that size behind the offset ends within the buffer, it returns NULL, and the allocator
-- is as it was.
pub allocate-Allocated :
    (a : LinearAllocator) (size k : ℕ)
    → IsValid a
    → 0 < size
    → k < 64
    → a.memory + a.total_size + size + 2 ^ k < size_mod
    → Allocated a size (2 ^ k) (allocate a size (2 ^ k))
unfolding allocate
allocate-Allocated a size k v pos h fits =
    let (first, gap) = aligned-FirstMultiple a k v h (omega arith) in
    let nonzero : (size == 0) ≡ false = ground arith in
    let given : (2 ^ k == 0) ≡ false = ground (arith, pow-pos k) in
    let room = add_size (add_size a.allocated (padding a (2 ^ k))) size in
    simp (nonzero, given)
      (elim (Bool-cases (ltb a.total_size room)) [
        | inl e ↦ simp e (
            exhausted (λ p multiple behind.
              ground (arith, gap, first.1, first.2, v.bounded, first.3 p multiple behind)))
        | inr e ↦ simp e (
            granted first (omega (arith, gap, first.1, first.2, v.bounded)) refl refl (record {
              bounded = ground (arith, gap, first.1, first.2, v.bounded);
              addressed = v.addressed;
            }))
      ])
