-- ===== src/DynamicArray/Push.antt =====
-- Appending: `justDynamicArrayPush`, `justDynamicArrayEmplace` and `justDynamicArrayPushRange`.
use just_library.Base.{
  ℕ, ◌+◌, ◌-◌, ◌*◌, ◌≤◌, ◌<◌, ◌^◌, ◌≡◌, refl, sym, ap, ◌∙◌, none, some, List, [], ◌∷◌, ◌++◌, length,
  get_elem?, copy, arith, length-copy, size_mod, add_size, Bool, true, false, Option, ◌==◌, ltb,
  leb, Bool-cases, inl, inr, length-append, subst, Option-cases, take, take-append, get_elem?-last,
  lt→ltb, append-nil,
}
use just_library.Memory.{Memory}
use just_library.DynamicArray.{
  DynamicArray, pop, slots, new_capacity, grow_target, grow, append_range, push_range, claim,
  emplace, write_slot, push, write_at,
}
use just_library.DynamicArray.Valid.{pop_last, Models, Fronts-copy}
use just_library.DynamicArray.Reserve.{Reserved, Refuses, granted, refused, reserve_keeps}

module _ {A : Type 0} (m : Memory A) where
  open m use {Store}

  empty_of_length : (xs : List A) → length xs ≡ 0 → xs ≡ []
  empty_of_length [] h = refl
  empty_of_length (x ∷ xs) h = absurd (omega arith)

  slots-write :
      (o : Option (List A)) (n i : ℕ) (source : List A)
      → slots (elim o [ none ↦ none | some b ↦ some (copy n b i source 0) ])
        ≡ copy n (slots o) i source 0
  slots-write none n i source = sym (empty_of_length _ (length-copy n [] i source 0))
  slots-write (some block) n i source = refl

  -- Writing a list behind the elements, where there is room.
  written-Models :
      (a : DynamicArray A) (xs ys : List A)
      → Models a xs
      → length xs + length ys ≤ a.capacity
      → Models
          (record (write_at a (length ys) a.size ys) { size = add_size a.size (length ys) })
          (xs ++ ys)
  written-Models a xs ys v h =
      let write = slots-write a.block (length ys) a.size ys in
      record {
        counted = omega (arith, v.counted, v.small, length-append xs ys);
        fits = omega (arith, length-append xs ys);
        room =
            omega
              (arith, v.room, ap length write, length-copy (length ys) (slots a.block) a.size ys 0);
        small = v.small;
        holds = λ i l.
            ap (λ b. get_elem? b i) write
            ∙ ap (λ n. get_elem? (copy (length ys) (slots a.block) n ys 0) i) v.counted
            ∙ Fronts-copy (slots a.block) xs ys (omega (arith, v.room)) v.holds i l;
      }

  -- How an append ends: with the elements of `ys` behind the others, or, where the memory for
  -- `wanted` elements is refused, with the array as it was.
  pub data Appended (a : DynamicArray A) (xs ys : List A) (wanted : ℕ) (s : Store)
      : Bool × DynamicArray A × Store → Type 0 where
    added :
        {a' : DynamicArray A} {s' : Store}
        → Models a' (xs ++ ys)
        → Appended a xs ys wanted s (true, a', s')
    no_memory :
        {s' : Store}
        → a.capacity < length xs + length ys
        → Refuses m a wanted s
        → Appended a xs ys wanted s (false, a, s')

  append_range-Appended :
      (a : DynamicArray A) (xs ys : List A) (wanted : ℕ) (s : Store)
      {r : Bool × DynamicArray A × Store}
      → length xs + length ys ≤ wanted
      → a.capacity < length xs + length ys
      → Reserved m a xs wanted s r
      → Appended a xs ys wanted s (append_range m ys (length ys) r)
  unfolding append_range
  append_range-Appended a xs ys wanted s enough full (granted {a' = b} v h) =
      added (written-Models b xs ys v (omega arith))
  append_range-Appended a xs ys wanted s enough full (refused why) = no_memory full why

  -- `justDynamicArrayPushRange` of all of a buffer on a valid array, where the sum of the two
  -- lengths and the bytes for it fit `size_t`: it succeeds with the buffer's elements behind the
  -- others, or there was no room, the memory is refused, and it fails with the array as it was.
  pub push_range-Appended :
      (a : DynamicArray A) (xs ys : List A) (s : Store)
      → Models a xs
      → 0 < a.element_size
      → length xs + length ys < size_mod
      → new_capacity a (length xs + length ys) * a.element_size < size_mod
      → Appended a xs ys (length xs + length ys) s (push_range m a (some ys) (length ys) s)
  unfolding push_range append_range
  push_range-Appended a xs [] s v pos small fits = added (subst (Models a) (sym (append-nil xs)) v)
  push_range-Appended a xs (y ∷ ys) s v pos small fits =
      let n = length (y ∷ ys) in
      let some_elements : (n == 0) ≡ false = ground arith in
      let sum : add_size a.size n ≡ length xs + n = omega (arith, v.counted) in
      simp (some_elements, sum)
        (elim (Bool-cases (ltb a.capacity (length xs + n))) [
          | inl e ↦ simp e (
              append_range-Appended a xs (y ∷ ys) (length xs + n) s (omega arith) (ground arith)
                (reserve_keeps m a xs (length xs + n) s v pos small fits))
          | inr e ↦ simp e (added (written-Models a xs (y ∷ ys) v (ground arith)))
        ])

  -- Claiming the slot behind the elements and writing it.
  claimed :
      (a : DynamicArray A) (x : A) (s : Store)
      → 0 < length (slots a.block)
      → write_slot m x (claim m (true, a, s))
        ≡ (true, record (write_at a 1 a.size (x ∷ [])) { size = add_size a.size 1 }, s)
  unfolding write_slot claim
  claimed a x s h = elim (Option-cases a.block) [
    | inl e ↦ absurd (omega (arith, ap (λ o. length (slots o)) e))
    | inr (block, e) ↦ simp e refl
  ]

  push-added :
      (a b : DynamicArray A) (xs : List A) (x : A) (wanted : ℕ) (s s' : Store)
      → Models b xs
      → length xs < b.capacity
      → Appended a xs (x ∷ []) wanted s (write_slot m x (claim m (true, b, s')))
  push-added a b xs x wanted s s' v h =
      subst (λ r. Appended a xs (x ∷ []) wanted s r) (sym (claimed b x s' (omega (arith, v.room))))
        (added (written-Models b xs (x ∷ []) v (omega arith)))

  write_slot-Appended :
      (a : DynamicArray A) (xs : List A) (x : A) (wanted : ℕ) (s : Store)
      {r : Bool × DynamicArray A × Store}
      → length xs < wanted
      → a.capacity ≤ length xs
      → Reserved m a xs wanted s r
      → Appended a xs (x ∷ []) wanted s (write_slot m x (claim m r))
  unfolding write_slot claim
  write_slot-Appended a xs x wanted s enough full (granted {a' = b} {s' = s'} v h) =
      push-added a b xs x wanted s s' v (omega arith)
  write_slot-Appended a xs x wanted s enough full (refused why) = no_memory (omega arith) why

  -- `justDynamicArrayPush` on a valid array of fewer than 2 ^ 63 slots whose doubled block would
  -- fit `size_t`: it succeeds with the value behind the other elements, or the array was full, the
  -- memory for the doubled block is refused, and it fails with the array as it was.
  pub push-Appended :
      (a : DynamicArray A) (xs : List A) (x : A) (s : Store)
      → Models a xs
      → 0 < a.element_size
      → a.capacity < 2 ^ 63
      → new_capacity a (grow_target a) * a.element_size < size_mod
      → Appended a xs (x ∷ []) (grow_target a) s (push m a x s)
  unfolding push emplace grow grow_target
  push-Appended a xs x s v pos small fits = elim (Bool-cases (leb a.capacity a.size)) [
    | inl e ↦ simp e (
        write_slot-Appended a xs x (grow_target a) s (ground (arith, v.counted))
          (ground (arith, v.counted))
          (reserve_keeps m a xs (grow_target a) s v pos (ground arith) fits))
    | inr e ↦ simp e (push-added a a xs x (grow_target a) s s v (ground (arith, v.counted)))
  ]

  -- What `justDynamicArrayPop` gives after a push that succeeded: the value pushed, and an array of
  -- the elements that were there before.
  pub pop-push :
      (a a' : DynamicArray A) (xs : List A) (x : A) (s s' : Store)
      → Models a xs
      → 0 < a.element_size
      → a.capacity < 2 ^ 63
      → new_capacity a (grow_target a) * a.element_size < size_mod
      → push m a x s ≡ (true, a', s')
      → ((pop a' true).0 ≡ true) × ((pop a' true).1 ≡ some x) × Models (pop a' true).2 xs
  pop-push a a' xs x s s' v pos small fits run =
      popped
        (subst (λ r. Appended a xs (x ∷ []) (grow_target a) s r) run
          (push-Appended a xs x s v pos small fits))
        refl
    where
      popped :
          {r : Bool × DynamicArray A × Store}
          → Appended a xs (x ∷ []) (grow_target a) s r
          → r ≡ (true, a', s')
          → ((pop a' true).0 ≡ true) × ((pop a' true).1 ≡ some x) × Models (pop a' true).2 xs
      popped (added w) e =
          let after = subst (λ t. Models t (xs ++ x ∷ [])) (ap (λ t. t.1) e) w in
          let (done, out, rest) = pop_last a' (xs ++ x ∷ []) true after in
          let before : length (xs ++ x ∷ []) - 1 ≡ length xs =
            omega (arith, length-append xs (x ∷ [])) in
          (
            done ∙ lt→ltb 0 (length (xs ++ x ∷ [])) (omega (arith, length-append xs (x ∷ []))),
            out ∙ ap (get_elem? (xs ++ x ∷ [])) before ∙ get_elem?-last xs x,
            subst (Models (pop a' true).2)
                (ap (λ n. take n (xs ++ x ∷ [])) before ∙ take-append xs (x ∷ [])) rest,
          )
      popped (no_memory h why) e = absurd (cc (ap (λ t. t.0) e))
