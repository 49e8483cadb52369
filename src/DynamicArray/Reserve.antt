-- ===== src/DynamicArray/Reserve.antt =====
-- `justDynamicArrayReserve`, `__justDynamicArrayGrow` and `justDynamicArrayShrinkToFit` keep the
-- elements, by a new block from a linear allocator or by `realloc`.
use native.Mathlib.Nat.{mul-div_cancel, mod-lt}
use just_library.Base.{
  ◌^◌, ℕ, ◌*◌, ◌≤◌, ◌<◌, ◌≡◌, refl, ap, ◌∙◌, none, some, List, length, get_elem?, arith,
  length-copy, get_elem?-copy_front, size_mod, mul_size, mul_size-eq, Bool, true, false, Option,
  leb, Bool-cases, inl, inr,
}
use just_library.Memory.{Memory}
use just_library.DynamicArray.{
  DynamicArray, slots, new_capacity, carry, resize_heap, resize, finish_resize, reserve,
}
use just_library.DynamicArray.Valid.{Models, Fronts}

module _ {A : Type 0} (m : Memory A) where
  open m use {
    Store, linear_allocate, linear-length, malloc-length, realloc-length, realloc-keeps,
    tracked_malloc, tracked_realloc,
  }

  -- A resize that is granted gives a block of `c` slots with the elements at the front.
  abbrev Kept : List A → ℕ → Option (List A) → Type 0
  Kept xs c none = Unit {0}
  Kept xs c (some block) = (length block ≡ c) × Fronts block xs

  Kept-of_eq :
      (xs : List A) (c : ℕ) (o : Option (List A))
      → ((block : List A) → o ≡ some block → (length block ≡ c) × Fronts block xs)
      → Kept xs c o
  Kept-of_eq xs c none h = tt
  Kept-of_eq xs c (some block) h = h block refl

  resize_heap-Kept :
      (a : DynamicArray A) (xs : List A) (o : Option (List A)) (e c : ℕ) (s : Store)
      → 0 < e
      → length xs ≤ c
      → length xs ≤ length (slots o)
      → Fronts (slots o) xs
      → Kept xs c (resize_heap m o e (c * e) s).0
  unfolding resize_heap
  resize_heap-Kept a xs none e c s pos enough old h = Kept-of_eq xs c _ (λ block got. (
    malloc-length e (c * e) s _ block (ap (λ o. (o, (tracked_malloc e (c * e) s).1)) got)
        ∙ mul-div_cancel c pos,
    λ i l. absurd (omega arith),
  ))
  resize_heap-Kept a xs (some block) e c s pos enough old h = Kept-of_eq xs c _ (λ block' got.
      let run = ap (λ o. (o, (tracked_realloc block e (c * e) s).1)) got in
      let size = realloc-length block e (c * e) s _ block' run ∙ mul-div_cancel c pos in
      (
        size,
        λ i l. realloc-keeps block e (c * e) s _ block' i run (omega arith) (omega arith) ∙ h i l,
      ))

  carry-Kept :
      (a : DynamicArray A) (xs : List A) (c : ℕ) (res : Option (List A) × Store)
      → Models a xs
      → length xs ≤ c
      → ((block : List A) → res.0 ≡ some block → length block ≡ c)
      → Kept xs c (carry m a res).0
  unfolding carry
  carry-Kept a xs c (none, s) v enough size = tt
  carry-Kept a xs c (some fresh, s) v enough size = (
    length-copy a.size fresh 0 (slots a.block) 0 ∙ size fresh refl,
    λ i l.
        get_elem?-copy_front a.size fresh (slots a.block) 0 i
          (omega (arith, v.counted, size fresh refl)) (omega (arith, v.counted, v.fits, v.room))
          (omega (arith, v.counted))
        ∙ ap (get_elem? (slots a.block)) (omega arith)
        ∙ v.holds i l,
  )

  resize-Kept :
      (a : DynamicArray A) (xs : List A) (c : ℕ) (s : Store)
      → Models a xs
      → 0 < a.element_size
      → length xs ≤ c
      → Kept xs c (resize m a (c * a.element_size) s).0
  unfolding resize carry
  resize-Kept a xs c s v pos enough = elim (Bool-cases a.linear) [
    | inl e ↦ rw e (
        carry-Kept a xs c (linear_allocate a.element_size (c * a.element_size) s) v enough
          (λ block got.
            linear-length a.element_size (c * a.element_size) s _ block
              (ap (λ o. (o, (linear_allocate a.element_size (c * a.element_size) s).1)) got)
            ∙ mul-div_cancel c pos))
    | inr e ↦ rw e (
        resize_heap-Kept a xs a.block a.element_size c s pos enough (omega (arith, v.fits, v.room))
          v.holds)
  ]

  -- How a resize ends: with the same elements and the new capacity, or, where the memory is
  -- refused, with the array as it was.
  pub data Resized (a : DynamicArray A) (xs : List A) (c : ℕ) (asked : Option (List A))
      : Bool × DynamicArray A × Store → Type 0 where
    granted :
        {a' : DynamicArray A} {s' : Store}
        → Models a' xs
        → a'.capacity ≡ c
        → Resized a xs c asked (true, a', s')
    refused : {s' : Store} → asked ≡ none → Resized a xs c asked (false, a, s')

  finish_resize-Resized :
      (a : DynamicArray A) (xs : List A) (c : ℕ) (res : Option (List A) × Store)
      → Models a xs
      → length xs ≤ c
      → c < size_mod
      → Kept xs c res.0
      → Resized a xs c res.0 (finish_resize m a c res)
  unfolding finish_resize
  finish_resize-Resized a xs c (none, s) v enough small k = refused refl
  finish_resize-Resized a xs c (some block, s) v enough small k =
      granted
        (record {
          counted = v.counted;
          fits = enough;
          room = omega (arith, k.0);
          small = small;
          holds = k.1;
        })
        refl

  -- The bytes asked for, in `justDynamicArrayReserve`.
  abbrev pub Refuses : DynamicArray A → ℕ → Store → Type 0
  Refuses a wanted s = (resize m a (mul_size (new_capacity a wanted) a.element_size) s).0 ≡ none

  -- How a reservation ends.
  pub data Reserved (a : DynamicArray A) (xs : List A) (wanted : ℕ) (s : Store)
      : Bool × DynamicArray A × Store → Type 0 where
    granted :
        {a' : DynamicArray A} {s' : Store}
        → Models a' xs
        → wanted ≤ a'.capacity
        → Reserved a xs wanted s (true, a', s')
    refused : {s' : Store} → Refuses a wanted s → Reserved a xs wanted s (false, a, s')

  Resized-Reserved :
      (a : DynamicArray A) (xs : List A) (wanted c : ℕ) (s : Store) {asked : Option (List A)}
      {r : Bool × DynamicArray A × Store}
      → wanted ≤ c
      → (asked ≡ none → Refuses a wanted s)
      → Resized a xs c asked r
      → Reserved a xs wanted s r
  Resized-Reserved a xs wanted c s enough why (granted v e) = granted v (omega arith)
  Resized-Reserved a xs wanted c s enough why (refused e) = refused (why e)

  new_capacity-bounds :
      (a : DynamicArray A) (wanted : ℕ)
      → wanted < size_mod
      → (wanted ≤ new_capacity a wanted) × (new_capacity a wanted < size_mod)
  unfolding new_capacity
  new_capacity-bounds a wanted h =
      let pos : 0 < 2 ^ 64 = omega arith in ground (arith, mod-lt (a.capacity * 2) pos)

  -- `justDynamicArrayReserve` on a valid array, for a request whose bytes fit `size_t`: it succeeds
  -- with the same elements and at least the wanted capacity, or the memory is refused and it fails
  -- with the array as it was.
  pub reserve_keeps :
      (a : DynamicArray A) (xs : List A) (wanted : ℕ) (s : Store)
      → Models a xs
      → 0 < a.element_size
      → wanted < size_mod
      → new_capacity a wanted * a.element_size < size_mod
      → Reserved a xs wanted s (reserve m a wanted s)
  unfolding reserve
  reserve_keeps a xs wanted s v pos small fits = elim (Bool-cases (leb wanted a.capacity)) [
    | inl e ↦ rw e (granted v (ground arith))
    | inr e ↦
        let c = new_capacity a wanted in
        let bounds = new_capacity-bounds a wanted small in
        let more : a.capacity < wanted = ground arith in
        let bytes = mul_size-eq c a.element_size fits in
        rw (e, bytes)
          (Resized-Reserved a xs wanted c s bounds.0 (λ none_left. rw bytes none_left)
            (finish_resize-Resized a xs c (resize m a (c * a.element_size) s) v
              (omega (arith, v.fits, bounds)) bounds.1
              (resize-Kept a xs c s v pos (omega (arith, v.fits, bounds)))))
  ]
