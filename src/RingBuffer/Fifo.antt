-- ===== src/RingBuffer/Fifo.antt =====
-- What a ring buffer promises: a queue of at most `cap` elements, oldest first, that either
-- refuses a new element when it is full or gives up the oldest one for it.
use just_library.Base.{
  ℕ, Bool, true, false, Option, none, some, List, [], ◌∷◌, ◌++◌, length, ◌≡◌, if◌then◌else◌, ◌==◌,
}

-- The calls of a client, and what each returns: a flag and, for a pop, the element.
pub data Op (A : Type 0) : Type 0 where
  put : A → Op A
  get : Op A
  reset : Op A

abbrev pub Reply : Type 0 → Type 0
Reply A = Bool × Option A

module _ {A : Type 0} where
  unfoldable pub rest : List A → List A
  rest [] = []
  rest (x ∷ xs) = xs

  unfoldable pub fifo_pop : List A → Bool × Option A × List A
  fifo_pop [] = (false, none, [])
  fifo_pop (x ∷ xs) = (true, some x, xs)

  module _ (cap : ℕ) (overwrite : Bool) where
    unfoldable pub fifo_push : List A → A → Bool × List A
    fifo_push xs x =
        if length xs == cap
        then (if overwrite then (true, rest xs ++ x ∷ []) else (false, xs))
        else (true, xs ++ x ∷ [])

    module _ (xs : List A) (x : A) where
      pub fifo_push-room : (length xs == cap) ≡ false → fifo_push xs x ≡ (true, xs ++ x ∷ [])
      unfolding fifo_push
      fifo_push-room e = rw e

      pub fifo_push-overwrite :
          (length xs == cap) ≡ true → overwrite ≡ true → fifo_push xs x ≡ (true, rest xs ++ x ∷ [])
      unfolding fifo_push
      fifo_push-overwrite e o = rw (e, o)

      pub fifo_push-full :
          (length xs == cap) ≡ true → overwrite ≡ false → fifo_push xs x ≡ (false, xs)
      unfolding fifo_push
      fifo_push-full e o = rw (e, o)

    unfoldable pub fifo_run : List A → List (Op A) → List (Reply A)
    fifo_run xs [] = []
    fifo_run xs (put x ∷ ops) = let (done, ys) = fifo_push xs x in (done, none) ∷ fifo_run ys ops
    fifo_run xs (get ∷ ops) = let (done, out, ys) = fifo_pop xs in (done, out) ∷ fifo_run ys ops
    fifo_run xs (reset ∷ ops) = (true, none) ∷ fifo_run [] ops
