-- ===== src/RingBuffer/Refine.antt =====
-- A usable ring buffer behaves as the bounded queue of the elements that it holds.
use just_library.Base.{
  ◌+◌, ◌%◌, ◌<◌, ◌≡◌, refl, sym, ap, ◌∙◌, Bool, true, false, none, List, [], ◌∷◌, ◌++◌, length, set,
  length-set, length-append, arith, mod-add-mod, mod-eq_of_lt, ◌==◌, if◌then◌else◌, Bool-cases, inl,
  inr, get_elem?,
}
use native.Mathlib.Nat.{mod-lt}
use just_library.Circular.{Holds-append, Holds-tail, Holds-head}
use just_library.RingBuffer.{
  RingBuffer, drop_oldest, claim, store_at, emplace, write_slot, push, pop, peek, peeked, clear,
}
use just_library.RingBuffer.Valid.{Models, capacity-pos, capacity-lt, next_index-eq}
use just_library.RingBuffer.Fifo.{
  Op, put, get, reset, Reply, rest, fifo_pop, fifo_push, fifo_run, fifo_push-room,
  fifo_push-overwrite, fifo_push-full,
}

module _ {A : Type 0} where
  -- Claiming the slot under `head` and writing it appends an element.
  claim-Models :
      (r : RingBuffer A) (xs : List A) (x : A)
      → Models r xs
      → length xs < r.capacity
      → Models (store_at (claim r).1 r.head x) (xs ++ x ∷ [])
  unfolding claim
  claim-Models r xs x v h = record {
    buffer = set v.buffer r.head x;
    exponent = v.exponent;
    present = rw v.present;
    small = v.small;
    power = v.power;
    masked = v.masked;
    room = omega (arith, v.room, length-set v.buffer r.head x);
    tail_in = v.tail_in;
    counted = omega (arith, v.counted, length-append xs (x ∷ []), capacity-lt v);
    fits = omega (arith, length-append xs (x ∷ []));
    head_after =
        next_index-eq v r.head
          (omega (arith, v.head_after, mod-lt (r.tail + length xs) (capacity-pos v)))
        ∙ ap (λ t. (t + 1) % r.capacity) v.head_after
        ∙ mod-add-mod (r.tail + length xs) r.capacity 1
        ∙ ap (λ t. t % r.capacity) (omega (arith, length-append xs (x ∷ [])));
    holds =
        rw v.head_after (Holds-append v.buffer r.capacity r.tail xs x v.room v.tail_in h v.holds);
  }

  -- Advancing `tail` gives up the oldest element.
  drop_oldest-Models :
      (r : RingBuffer A) (x : A) (xs : List A) → Models r (x ∷ xs) → Models (drop_oldest r) xs
  unfolding drop_oldest
  drop_oldest-Models r x xs v =
      let next = next_index-eq v r.tail v.tail_in in
      record {
        buffer = v.buffer;
        exponent = v.exponent;
        present = v.present;
        small = v.small;
        power = v.power;
        masked = v.masked;
        room = v.room;
        tail_in = omega (arith, next, mod-lt (r.tail + 1) (capacity-pos v));
        counted = omega (arith, v.counted, v.fits, capacity-lt v);
        fits = omega (arith, v.fits);
        head_after =
            v.head_after
            ∙ ap (λ t. t % r.capacity) {x = r.tail + length (x ∷ xs)} {y = r.tail + 1 + length xs}
                (omega arith)
            ∙ sym (mod-add-mod (r.tail + 1) r.capacity (length xs))
            ∙ ap (λ t. (t + length xs) % r.capacity) (sym next);
        holds = rw next (Holds-tail v.buffer r.capacity r.tail x xs v.holds);
      }

  -- A push whose `emplace` claims a slot writes that slot.
  push-claim :
      (r r' : RingBuffer A) (xs : List A) (x : A)
      → Models r' xs
      → emplace r ≡ claim r'
      → push r x ≡ (true, store_at (claim r').1 r'.head x)
  unfolding push write_slot claim
  push-claim r r' xs x v e = ap (write_slot x) e ∙ rw v.present

  -- The three branches of `justRingBufferEmplace`.
  emplace-room : (r : RingBuffer A) → (r.count == r.capacity) ≡ false → emplace r ≡ claim r
  unfolding emplace
  emplace-room r e = rw e

  emplace-overwrite :
      (r : RingBuffer A)
      → (r.count == r.capacity) ≡ true
      → r.allow_overwrite ≡ true
      → emplace r ≡ claim (drop_oldest r)
  unfolding emplace
  emplace-overwrite r e o = rw (e, o)

  emplace-full :
      (r : RingBuffer A)
      → (r.count == r.capacity) ≡ true
      → r.allow_overwrite ≡ false
      → emplace r ≡ (none, r)
  unfolding emplace
  emplace-full r e o = rw (e, o)

  push-full :
      (r : RingBuffer A) (x : A)
      → (r.count == r.capacity) ≡ true
      → r.allow_overwrite ≡ false
      → push r x ≡ (false, r)
  unfolding push write_slot
  push-full r x e o = ap (write_slot x) (emplace-full r e o)

  abbrev Pushed : (r : RingBuffer A) (xs : List A) (x : A) → Type 0
  Pushed r xs x =
      let (done, ys) = fifo_push r.capacity r.allow_overwrite xs x in
      ((push r x).0 ≡ done) × Models (push r x).1 ys

  push_over :
      (r : RingBuffer A) (xs : List A) (x : A)
      → Models r xs
      → (r.count == r.capacity) ≡ true
      → r.allow_overwrite ≡ true
      → Pushed r xs x
  unfolding rest drop_oldest
  push_over r [] x v e o = absurd (ground (arith, v.counted, capacity-pos v))
  push_over r (y ∷ xs) x v e o =
      let w = drop_oldest-Models r y xs v in
      let run = push-claim r (drop_oldest r) xs x w (emplace-overwrite r e o) in
      let spec =
        fifo_push-overwrite r.capacity r.allow_overwrite (y ∷ xs) x (rw v.counted at e) o in
      rw (run, spec) (refl, claim-Models (drop_oldest r) xs x w (omega (arith, v.fits)))

  -- `justRingBufferPush` returns what the bounded queue returns, and leaves the ring holding what
  -- the queue holds: the new element is last, refused, or last after the oldest was given up.
  pub push_refines :
      (r : RingBuffer A) (xs : List A) (x : A)
      → Models r xs
      → let (done, ys) = fifo_push r.capacity r.allow_overwrite xs x in
        ((push r x).0 ≡ done) × Models (push r x).1 ys
  push_refines r xs x v = elim (Bool-cases (r.count == r.capacity)) [
    | inr e ↦
        let run = push-claim r r xs x v (emplace-room r e) in
        let spec = fifo_push-room r.capacity r.allow_overwrite xs x (rw v.counted at e) in
        rw (run, spec) (refl, claim-Models r xs x v (ground (arith, v.counted, v.fits)))
    | inl e ↦ elim (Bool-cases r.allow_overwrite) [
      | inl o ↦ push_over r xs x v e o
      | inr o ↦
          let spec = fifo_push-full r.capacity r.allow_overwrite xs x (rw v.counted at e) o in
          rw (push-full r x e o, spec) (refl, v)
    ]
  ]

  -- `justRingBufferPop` returns what the queue returns, the oldest element included if the caller
  -- wants it, and leaves the ring holding the rest.
  pub pop_refines :
      (r : RingBuffer A) (xs : List A) (wanted : Bool)
      → Models r xs
      → let (done, out, ys) = fifo_pop xs in
        ((pop r wanted).0 ≡ done)
        × ((pop r wanted).1 ≡ (if wanted then out else none))
        × Models (pop r wanted).2 ys
  unfolding pop fifo_pop drop_oldest
  pop_refines r [] wanted v =
      let e : (r.count == 0) ≡ true = ground (arith, v.counted) in rw e (refl, ground arith, v)
  pop_refines r (x ∷ xs) wanted v =
      let e : (r.count == 0) ≡ false = ground (arith, v.counted) in
      rw e (
        refl,
        rw (v.present, Holds-head v.buffer r.capacity r.tail x xs v.tail_in v.holds),
        drop_oldest-Models r x xs v,
      )

  -- `justRingBufferPeek` points at the oldest element, and at nothing in an empty ring.
  pub peek-first :
      (r : RingBuffer A) (xs : List A) → Models r xs → peeked r (peek r) ≡ get_elem? xs 0
  unfolding peek
  peek-first r [] v = let e : (r.count == 0) ≡ true = ground (arith, v.counted) in rw e
  peek-first r (x ∷ xs) v =
      let e : (r.count == 0) ≡ false = ground (arith, v.counted) in
      rw (e, v.present) (Holds-head v.buffer r.capacity r.tail x xs v.tail_in v.holds)

  -- A cleared ring is empty.
  pub clear-Models : (r : RingBuffer A) (xs : List A) → Models r xs → Models (clear r) []
  unfolding clear
  clear-Models r xs v = record {
    buffer = v.buffer;
    exponent = v.exponent;
    present = v.present;
    small = v.small;
    power = v.power;
    masked = v.masked;
    room = v.room;
    tail_in = capacity-pos v;
    counted = refl;
    fits = omega arith;
    head_after = sym (mod-eq_of_lt {n = 0 + 0} {m = r.capacity} (capacity-pos v));
    holds = λ i h. elim h [ ];
  }

  -- No operation changes the capacity or the policy.
  abbrev SameKind : RingBuffer A → RingBuffer A → Type 0
  SameKind r r' = (r'.capacity ≡ r.capacity) × (r'.allow_overwrite ≡ r.allow_overwrite)

  push-SameKind : (r : RingBuffer A) (x : A) → SameKind r (push r x).1
  unfolding push write_slot emplace claim drop_oldest
  push-SameKind r x = ground arith

  pop-SameKind : (r : RingBuffer A) (w : Bool) → SameKind r (pop r w).2
  unfolding pop
  pop-SameKind r w = ground arith

  -- A client's calls in order, with what each returns.
  unfoldable pub run : RingBuffer A → List (Op A) → List (Reply A)
  run r [] = []
  run r (put x ∷ ops) = let (done, r') = push r x in (done, none) ∷ run r' ops
  run r (get ∷ ops) = let (done, out, r') = pop r true in (done, out) ∷ run r' ops
  run r (reset ∷ ops) = (true, none) ∷ run (clear r) ops

  -- No sequence of pushes, pops and clears tells a usable ring from the bounded queue of its
  -- elements, under either policy.
  pub run_refines :
      (ops : List (Op A)) (r : RingBuffer A) (xs : List A)
      → Models r xs
      → run r ops ≡ fifo_run r.capacity r.allow_overwrite xs ops
  unfolding run fifo_run clear
  run_refines [] r xs v = refl
  run_refines (put x ∷ ops) r xs v =
      let (done, after) = push_refines r xs x v in
      let (cap, policy) = push-SameKind r x in
      rw (run_refines ops (push r x).1 _ after, done, cap, policy)
  run_refines (get ∷ ops) r xs v =
      let (done, out, after) = pop_refines r xs true v in
      let (cap, policy) = pop-SameKind r true in
      rw (run_refines ops (pop r true).2 _ after, done, out, cap, policy)
  run_refines (reset ∷ ops) r xs v =
      ap (λ t. (true, none) ∷ t) (run_refines ops (clear r) [] (clear-Models r xs v))
