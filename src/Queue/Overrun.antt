-- ===== src/Queue/Overrun.antt =====
-- The `tail` and the old block after `justQueueReserve`, in src/dataStructures/queue.c.
use just_library.Base.{
  ℕ, ◌≤◌, ◌<◌, ◌≡◌, ◌≢◌, refl, sym, ap, ◌∙◌, Bool, true, false, Option, none, some, List, arith,
  mul_size, sub_size, size_mod, ◌==◌, leb, ltb, is_some, ◌&&◌,
}
use just_library.Memory.{Memory, allocate}
use just_library.Queue.{
  Queue, dequeue, reserve, shrink_to_fit, finish_reserve, move_into, target_capacity, emplace,
  claim, grow, next_index,
}

module _ {A : Type 0} (m : Memory A) where
  open m use {Store}

  finish_reserve-tail :
      (q q' : Queue A) (c : ℕ) (res : Option (List A) × Store) (s' : Store)
      → finish_reserve m q c res ≡ (true, q', s')
      → (q'.tail ≡ q.size) × (q'.size ≡ q.size) × (q'.capacity ≡ c) × (is_some q'.block ≡ true)
  unfolding finish_reserve
  finish_reserve-tail q q' c (none, s) s' h = absurd (cc (ap (λ r. r.0) h))
  finish_reserve-tail q q' c (some fresh, s) s' h = (
    ap (λ r. r.1.tail) (sym h),
    ap (λ r. r.1.size) (sym h),
    ap (λ r. r.1.capacity) (sym h),
    ap (λ r. is_some r.1.block) (sym h),
  )

  move_into-empty :
      (q : Queue A) (o : Option (List A)) (fresh : List A) (s : Store)
      → q.size ≡ 0
      → (move_into m q o fresh s).1 ≡ s
  unfolding move_into
  move_into-empty q none fresh s e = refl
  move_into-empty q (some old) fresh s e =
      let nothing : ltb 0 q.size ≡ false = ground arith in simp nothing

  finish_leaks :
      (q q' : Queue A) (c : ℕ) (res : Option (List A) × Store) (s' : Store)
      → q.size ≡ 0
      → finish_reserve m q c res ≡ (true, q', s')
      → s' ≡ res.1
  unfolding finish_reserve
  finish_leaks q q' c (none, s) s' e h = absurd (cc (ap (λ r. r.0) h))
  finish_leaks q q' c (some fresh, s) s' e h =
      ap (λ r. r.2) (sym h) ∙ move_into-empty q q.block fresh s e

  shrink-tail :
      (q q' : Queue A) (s s' : Store)
      → q.size ≢ 0
      → target_capacity q q.size ≡ q.size
      → q.size < q.capacity
      → shrink_to_fit m q s ≡ (true, q', s')
      → (q'.tail ≡ q.size) × (q'.size ≡ q.size) × (q'.capacity ≡ q.size) × (is_some q'.block ≡ true)
  unfolding shrink_to_fit reserve
  shrink-tail q q' s s' some_elements exact loose h =
      let target = target_capacity q q.size in
      let moves : (target == q.capacity && is_some q.block) ≡ false = ground (arith, exact) in
      let nonzero : (target == 0) ≡ false = ground (arith, exact) in
      let (tail, size, cap, present) =
        finish_reserve-tail q q' target
          (allocate m q.linear q.element_size (mul_size target q.element_size) s) s'
          (rw (moves, nonzero) at h) in
      (tail, size, cap ∙ exact, present)

  claim-slot :
      (q : Queue A) (s : Store) → is_some q.block ≡ true → (claim m (true, q, s)).0 ≡ some q.tail
  unfolding claim
  claim-slot q s present = ground arith

  grow-room : (q : Queue A) (s : Store) → leb q.capacity q.size ≡ false → grow m q s ≡ (true, q, s)
  unfolding grow
  grow-room q s e = rw e

  emplace_past_end :
      (q : Queue A) (s : Store) (wanted : Bool)
      → q.size ≢ 0
      → q.size ≤ q.capacity
      → q.capacity < size_mod
      → q.tail ≡ q.capacity
      → is_some q.block ≡ true
      → (emplace m (dequeue q wanted).2 s).0 ≡ some (dequeue q wanted).2.capacity
  unfolding emplace dequeue
  emplace_past_end q s wanted some_elements fits small at_end present =
      let p = record q { head = next_index q q.head; size = sub_size q.size 1 } in
      let run : (dequeue q wanted).2 ≡ p = simp nonempty in
      rw run (
        ap (λ r. (claim m r).0) (grow-room p s (ground arith))
        ∙ claim-slot p s present
        ∙ ap some at_end)
    where
      nonempty : (q.size == 0) ≡ false
      nonempty = ground arith

  -- After `justQueueShrinkToFit` has cut a queue down to exactly its elements, which it does
  -- whenever their number is what the rounding returns for it, dequeuing one and making room for
  -- another hands out the slot at index `capacity`: one past the end of the block.
  pub shrink_overruns :
      (q q' : Queue A) (s s' : Store) (wanted : Bool)
      → q.size ≢ 0
      → q.capacity < size_mod
      → target_capacity q q.size ≡ q.size
      → q.size < q.capacity
      → shrink_to_fit m q s ≡ (true, q', s')
      → (emplace m (dequeue q' wanted).2 s').0 ≡ some (dequeue q' wanted).2.capacity
  shrink_overruns q q' s s' wanted some_elements small exact loose h =
      let (tail, size, cap, present) = shrink-tail q q' s s' some_elements exact loose h in
      emplace_past_end q' s' wanted (omega arith) (omega arith) (omega arith) (tail ∙ sym cap)
        present

  -- A reservation for an empty queue that has a block does not free that block: the store is what
  -- the allocation left.
  pub reserve_leaks :
      (q q' : Queue A) (s s' : Store) (wanted : ℕ)
      → q.size ≡ 0
      → target_capacity q wanted ≢ 0
      → target_capacity q wanted ≢ q.capacity
      → reserve m q wanted s ≡ (true, q', s')
      → s'
        ≡ (allocate m q.linear q.element_size
            (mul_size (target_capacity q wanted) q.element_size)
            s).1
  unfolding reserve
  reserve_leaks q q' s s' wanted empty c_pos other h =
      let target = target_capacity q wanted in
      let moves : (target == q.capacity && is_some q.block) ≡ false = ground arith in
      let nonzero : (target == 0) ≡ false = ground arith in
      finish_leaks q q' target
        (allocate m q.linear q.element_size (mul_size target q.element_size) s) s' empty
        (rw (moves, nonzero) at h)
