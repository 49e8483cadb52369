-- ===== src/Queue/Refine.antt =====
-- A valid queue behaves as the list of its elements, oldest first.
use native.Mathlib.Nat.{mod-lt}
use just_library.Base.{
  ℕ, ◌+◌, ◌*◌, ◌%◌, ◌^◌, ◌≤◌, ◌<◌, ◌≡◌, inl, inr, refl, sym, ap, subst, ◌∙◌, Bool, true, false,
  Option, none, some, List, [], ◌∷◌, ◌++◌, length, set, length-set, length-append, arith,
  mod-add-mod, mod-eq_of_lt, sub_size, size_mod, leb, ◌==◌, if◌then◌else◌, Bool-cases,
}
use just_library.Circular.{Holds-append, Holds-tail, Holds-head}
use just_library.Memory.{Memory}
use just_library.Queue.{
  Queue, dequeue, clear, grow, grow_target, claim, emplace, write_slot, enqueue, store_at,
  target_capacity, next_index,
}
use just_library.Queue.Valid.{Usable, Models, capacity-pos, capacity-lt, next_index-eq}
use just_library.Queue.Grow.{
  Reserved, Refuses, granted, refused, reserve-Reserved, target_capacity-Suits, size-small,
}

module _ {A : Type 0} where
  dequeue-Usable :
      (q : Queue A) (x : A) (xs : List A) (n : ℕ)
      → length (x ∷ xs) ≤ q.capacity
      → Usable q (x ∷ xs)
      → Usable (record q { head = next_index q q.head; size = n }) xs
  dequeue-Usable q x xs n fits u =
      let next = next_index-eq u q.head u.head_in in
      record {
        buffer = u.buffer;
        exponent = u.exponent;
        present = u.present;
        small = u.small;
        power = u.power;
        masked = u.masked;
        room = u.room;
        head_in = omega (arith, next, mod-lt (q.head + 1) (capacity-pos u));
        tail_after =
            u.tail_after
            ∙ ap (λ t. t % q.capacity) {x = q.head + length (x ∷ xs)} {y = q.head + 1 + length xs}
                (omega arith)
            ∙ sym (mod-add-mod (q.head + 1) q.capacity (length xs))
            ∙ ap (λ t. (t + length xs) % q.capacity) (sym next);
        holds = rw next (Holds-tail u.buffer q.capacity q.head x xs u.holds);
      }

  dequeue-some :
      (q : Queue A) (x : A) (xs : List A) (wanted : Bool)
      → Models q (x ∷ xs)
      → Usable q (x ∷ xs)
      → ((dequeue q wanted).0 ≡ true)
        × ((dequeue q wanted).1 ≡ (if wanted then some x else none))
        × Models (dequeue q wanted).2 xs
  unfolding dequeue
  dequeue-some q x xs wanted v u =
      let e : (q.size == 0) ≡ false = ground (arith, v.counted) in
      rw e (
        refl,
        rw (u.present, Holds-head u.buffer q.capacity q.head x xs u.head_in u.holds),
        record {
          counted = omega (arith, v.counted, v.fits, capacity-lt u);
          fits = omega (arith, v.fits);
          stored = inl (dequeue-Usable q x xs (sub_size q.size 1) v.fits u);
        },
      )

  -- What a dequeue does to the elements.
  abbrev pub Dequeued : Queue A → Bool → List A → Bool × Option A × Queue A → Type 0
  Dequeued q wanted [] r = r ≡ (false, none, q)
  Dequeued q wanted (x ∷ xs) r =
      (r.0 ≡ true) × (r.1 ≡ (if wanted then some x else none)) × Models r.2 xs

  -- `justQueueDequeue` on a valid queue of no elements returns false and changes nothing; on any
  -- other it returns true, gives out the oldest element if the caller wants it, and keeps the rest.
  pub dequeue_refines :
      (q : Queue A) (xs : List A) (wanted : Bool)
      → Models q xs
      → Dequeued q wanted xs (dequeue q wanted)
  unfolding dequeue
  dequeue_refines q [] wanted v =
      let e : (q.size == 0) ≡ true = ground (arith, v.counted) in rw e refl
  dequeue_refines q (x ∷ xs) wanted v = elim v.stored [
    | inl u ↦ dequeue-some q x xs wanted v u
    | inr n ↦ absurd (omega (arith, v.fits, n.nothing))
  ]

  -- A cleared queue is valid and empty.
  pub clear-Models : (q : Queue A) (xs : List A) → Models q xs → Models (clear q) []
  unfolding clear
  clear-Models q xs v = record {
    counted = refl;
    fits = omega arith;
    stored = elim v.stored [
      | inr n ↦ inr (record { absent = n.absent; nothing = n.nothing })
      | inl u ↦ inl (record {
        buffer = u.buffer;
        exponent = u.exponent;
        present = u.present;
        small = u.small;
        power = u.power;
        masked = u.masked;
        room = u.room;
        head_in = capacity-pos u;
        tail_after = sym (mod-eq_of_lt {n = 0 + 0} {m = q.capacity} (capacity-pos u));
        holds = λ i h. elim h [ ];
      })
    ];
  }

  grow_target-bounds :
      (q : Queue A) → q.capacity < 2 ^ 62 → (q.capacity < grow_target q) × (grow_target q ≤ 2 ^ 63)
  unfolding grow_target
  grow_target-bounds q h = ground arith

  target-enough :
      (q : Queue A) (xs : List A) (wanted : ℕ)
      → Models q xs
      → wanted ≤ 2 ^ 63
      → wanted ≤ target_capacity q wanted
  target-enough q xs wanted v h = elim (target_capacity-Suits q wanted h (size-small q xs v)) [
    | inl z ↦ omega arith
    | inr t ↦ t.enough
  ]

  module _ (m : Memory A) where
    open m use {Store}

    -- Claiming the slot under `tail` and writing it appends an element.
    claim-Models :
        (q : Queue A) (xs : List A) (x : A) (s : Store)
        → Models q xs
        → length xs < q.capacity
        → (write_slot m x (claim m (true, q, s))
            ≡ (true, store_at (claim m (true, q, s)).1 q.tail x, s))
          × Models (store_at (claim m (true, q, s)).1 q.tail x) (xs ++ x ∷ [])
    unfolding claim write_slot
    claim-Models q xs x s v h = elim v.stored [
      | inr n ↦ absurd (omega (arith, n.nothing))
      | inl u ↦ (
        rw u.present,
        record {
          counted = omega (arith, v.counted, length-append xs (x ∷ []), capacity-lt u);
          fits = omega (arith, length-append xs (x ∷ []));
          stored = inl (record {
            buffer = set u.buffer q.tail x;
            exponent = u.exponent;
            present = rw u.present;
            small = u.small;
            power = u.power;
            masked = u.masked;
            room = omega (arith, u.room, length-set u.buffer q.tail x);
            head_in = u.head_in;
            tail_after =
                next_index-eq u q.tail
                  (omega (arith, u.tail_after, mod-lt (q.head + length xs) (capacity-pos u)))
                ∙ ap (λ t. (t + 1) % q.capacity) u.tail_after
                ∙ mod-add-mod (q.head + length xs) q.capacity 1
                ∙ ap (λ t. t % q.capacity) (omega (arith, length-append xs (x ∷ [])));
            holds =
                rw u.tail_after
                  (Holds-append u.buffer q.capacity q.head xs x u.room u.head_in h u.holds);
          });
        },
      )
    ]

    -- Growth leaves room for one more element, or leaves the queue as it was.
    data Grown (q : Queue A) (xs : List A) (s : Store) : Bool × Queue A × Store → Type 0 where
      roomy :
          {q' : Queue A} {s' : Store}
          → Models q' xs
          → length xs < q'.capacity
          → Grown q xs s (true, q', s')
      full :
          {s' : Store}
          → length xs ≡ q.capacity
          → Refuses m q (grow_target q) s
          → Grown q xs s (false, q, s')

    Reserved-Grown :
        (q : Queue A) (xs : List A) (s : Store) {r : Bool × Queue A × Store}
        → length xs < grow_target q
        → length xs ≡ q.capacity
        → Reserved m q xs (grow_target q) s r
        → Grown q xs s r
    Reserved-Grown q xs s l e (granted v h) = roomy v (omega arith)
    Reserved-Grown q xs s l e (refused why) = full e why

    grow-Grown :
        (q : Queue A) (xs : List A) (s : Store)
        → Models q xs
        → 0 < q.element_size
        → q.capacity < 2 ^ 62
        → target_capacity q (grow_target q) * q.element_size < size_mod
        → Grown q xs s (grow m q s)
    unfolding grow
    grow-Grown q xs s v pos small fits = elim (Bool-cases (leb q.capacity q.size)) [
      | inr e ↦ rw e (roomy v (ground (arith, v.counted)))
      | inl e ↦
          let bounds = grow_target-bounds q small in
          let same : length xs ≡ q.capacity = ground (arith, v.counted, v.fits) in
          rw e (
            Reserved-Grown q xs s (omega (arith, bounds)) same (
              reserve-Reserved m q xs (grow_target q) s v pos bounds.1 fits
                (inr (ground (arith, bounds, target-enough q xs (grow_target q) v bounds.1)))))
    ]

    -- How an enqueue ends: with the element last, or with a full queue that could not grow as it was.
    pub data Enqueued (q : Queue A) (xs : List A) (x : A) (s : Store)
        : Bool × Queue A × Store → Type 0 where
      added :
          {q' : Queue A} {s' : Store} → Models q' (xs ++ x ∷ []) → Enqueued q xs x s (true, q', s')
      no_memory :
          {s' : Store}
          → length xs ≡ q.capacity
          → Refuses m q (grow_target q) s
          → Enqueued q xs x s (false, q, s')

    write_slot-Enqueued :
        (q : Queue A) (xs : List A) (x : A) (s : Store) {r : Bool × Queue A × Store}
        → Grown q xs s r
        → Enqueued q xs x s (write_slot m x (claim m r))
    unfolding claim write_slot
    write_slot-Enqueued q xs x s (roomy {q' = p} {s' = t} v h) =
        let (run, w) = claim-Models p xs x t v h in
        subst (λ r. Enqueued q xs x s r) (sym run) (added w)
    write_slot-Enqueued q xs x s (full e why) = no_memory e why

    -- `justQueueEnqueue` on a valid queue whose doubled block would fit `size_t`: it either returns
    -- true with the element added behind the others, whatever growing and moving that took, or it
    -- returns false with the queue as it was, and then the queue was full and the allocation of
    -- the larger block was refused.
    pub enqueue-Enqueued :
        (q : Queue A) (xs : List A) (x : A) (s : Store)
        → Models q xs
        → 0 < q.element_size
        → q.capacity < 2 ^ 62
        → target_capacity q (grow_target q) * q.element_size < size_mod
        → Enqueued q xs x s (enqueue m q x s)
    unfolding enqueue emplace
    enqueue-Enqueued q xs x s v pos small fits =
        write_slot-Enqueued q xs x s (grow-Grown q xs s v pos small fits)
