-- ===== src/DynamicArray/Valid.antt =====
-- The elements that an array holds: the first `size` slots of its block.
use just_library.Base.{
  ℕ, ◌+◌, ◌-◌, ◌≤◌, ◌<◌, ◌≡◌, refl, sym, ap, ◌∙◌, none, some, List, ◌++◌, ◌∷◌, [], length,
  get_elem?, copy, arith, get_elem?-copy, get_elem?-copy_before, length-append,
  get_elem?-append_left, get_elem?-append_right, size_mod, sub_size, Bool, true, false,
  if◌then◌else◌, Option, ◌==◌, subst, ltb, lt→ltb, length-take, get_elem?-take, take,
}
use native.Mathlib.Decide.{dec_lt}
use just_library.Memory.{read}
use just_library.DynamicArray.{DynamicArray, slots, pop}

module _ {A : Type 0} where
  -- the list stands at the front of the block
  abbrev pub Fronts : List A → List A → Type 0
  Fronts block xs = (i : ℕ) → i < length xs → get_elem? block i ≡ get_elem? xs i

  -- Writing a list behind a front extends the front.
  pub Fronts-copy :
      (block xs ys : List A)
      → length xs + length ys ≤ length block
      → Fronts block xs
      → Fronts (copy (length ys) block (length xs) ys 0) (xs ++ ys)
  Fronts-copy block xs ys room h i l = elim (dec_lt i (length xs)) [
    | yes p ↦
        get_elem?-copy_before (length ys) block (length xs) ys 0 i p
        ∙ h i p
        ∙ sym (get_elem?-append_left xs ys i p)
    | no p ↦
        let k = i - length xs in
        let e : length xs + k ≡ i = omega arith in
        subst (λ t. get_elem? (copy (length ys) block (length xs) ys 0) t ≡ get_elem? (xs ++ ys) t)
          e
          (get_elem?-copy (length ys) block (length xs) ys 0 k room (omega arith)
              (omega (arith, length-append xs ys))
            ∙ ap (get_elem? ys) {y = k} (omega arith)
            ∙ sym (get_elem?-append_right xs ys k))
  ]

  pub record Models (a : DynamicArray A) (xs : List A) : Type 0 where
    pub counted : a.size ≡ length xs
    pub fits : length xs ≤ a.capacity
    pub room : a.capacity ≤ length (slots a.block)
    pub small : a.capacity < size_mod
    pub holds : Fronts (slots a.block) xs

  read-slots : (o : Option (List A)) (i : ℕ) → read o i ≡ get_elem? (slots o) i
  read-slots none i = refl
  read-slots (some block) i = refl

  -- `justDynamicArrayPop` on an array says whether it had an element, gives out the last one if
  -- the caller wants it, and keeps the others.
  pub pop_last :
      (a : DynamicArray A) (xs : List A) (wanted : Bool)
      → Models a xs
      → ((pop a wanted).0 ≡ ltb 0 (length xs))
        × ((pop a wanted).1 ≡ (if wanted then get_elem? xs (length xs - 1) else none))
        × Models (pop a wanted).2 (take (length xs - 1) xs)
  unfolding pop
  pop_last a [] wanted v =
      let e : (a.size == 0) ≡ true = ground (arith, v.counted) in rw e (refl, ground arith, v)
  pop_last a (x ∷ xs) wanted v =
      let e : (a.size == 0) ≡ false = ground (arith, v.counted) in
      let size : sub_size a.size 1 ≡ length (x ∷ xs) - 1 =
        omega (arith, v.counted, v.fits, v.small) in
      let kept : length (take (length (x ∷ xs) - 1) (x ∷ xs)) ≡ length (x ∷ xs) - 1 =
        length-take (length (x ∷ xs) - 1) (x ∷ xs) (omega arith) in
      rw (e, size)
        (
          sym (lt→ltb 0 (length (x ∷ xs)) (omega arith)),
          ap (λ o. if wanted then o else none) (read-slots a.block _ ∙ v.holds _ (omega arith)),
          record {
            counted = sym kept;
            fits = omega (arith, v.fits, kept);
            room = v.room;
            small = v.small;
            holds = λ i h.
                v.holds i (omega (arith, kept))
                ∙ sym (get_elem?-take _ (x ∷ xs) i (omega (arith, kept)));
          },
        )
