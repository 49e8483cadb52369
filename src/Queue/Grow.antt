-- ===== src/Queue/Grow.antt =====
-- `justQueueReserve` as a whole: the capacity it chooses and its outcomes.
use native.Mathlib.Nat.{mul-div_cancel, zero-add}
use native.Mathlib.Decide.{dec_le}
use just_library.Base.{
  mul_size, ℕ, ◌*◌, ◌^◌, ◌≤◌, ◌<◌, ◌≡◌, ◌≢◌, ◌⊎◌, inl, inr, refl, sym, ap, subst, ◌∙◌, Bool, true,
  false, Option, none, some, List, length, arith, mod-eq_of_lt, mul_size-eq, size_mod, ltb, ltb→lt,
  ◌==◌, Bool-cases, ◌&&◌, is_some,
}
use just_library.Base.Pow.{pow-lt, pow_mono}
use just_library.Circular.{Holds}
use just_library.Memory.{Memory, allocate, allocate-length}
use just_library.PowerOfTwo.{queue_round_to_power_of_two}
use just_library.PowerOfTwo.Least.{RoundsUp, queue_round_to_power_of_two-RoundsUp}
use just_library.Queue.{Queue, reserve, finish_reserve, move_into, release, target_capacity}
use just_library.Queue.Valid.{Models, capacity-lt}
use just_library.Queue.Reserve.{length-linearize, linearize-Holds}

-- A capacity that the queue may take: a power of two that holds what is asked for and what is there.
pub record Suits (wanted size c : ℕ) : Type 0 where
  pub exponent : ℕ
  pub small : exponent < 64
  pub power : c ≡ 2 ^ exponent
  pub enough : wanted ≤ c
  pub holds_all : size ≤ c
  pub nonzero : 0 < c

of_RoundsUp : (wanted size n c : ℕ) → RoundsUp 8 n c → wanted ≤ n → size ≤ c → Suits wanted size c
of_RoundsUp wanted size n c u h k = record {
  exponent = u.exponent;
  small = u.small;
  power = u.power;
  enough = omega (arith, u.enough);
  holds_all = k;
  nonzero = omega (arith, u.above);
}

round-zero : queue_round_to_power_of_two 0 ≡ 0
unfolding queue_round_to_power_of_two
round-zero = refl

le-round : (n : ℕ) → n ≤ 2 ^ 63 → n ≤ queue_round_to_power_of_two n
le-round n h = elim (dec_le n 0) [
  | yes p ↦ omega arith
  | no p ↦ (queue_round_to_power_of_two-RoundsUp n (omega arith) h).enough
]

module _ {A : Type 0} where
  pub size-small : (q : Queue A) (xs : List A) → Models q xs → q.size ≤ 2 ^ 63
  size-small q xs v = elim v.stored [
    | inl u ↦
        omega (arith, v.counted, v.fits, u.power, pow_mono u.exponent 63 (omega (arith, u.small)))
    | inr n ↦ omega (arith, v.counted, v.fits, n.nothing)
  ]

  -- The chosen capacity is zero for an empty queue that asks for none, and suits otherwise.
  pub target_capacity-Suits :
      (q : Queue A) (wanted : ℕ)
      → wanted ≤ 2 ^ 63
      → q.size ≤ 2 ^ 63
      → ((target_capacity q wanted ≡ 0) × (wanted ≡ 0) × (q.size ≡ 0))
        ⊎ Suits wanted q.size (target_capacity q wanted)
  target_capacity-Suits q wanted h k =
      elim (Bool-cases (ltb (queue_round_to_power_of_two wanted) q.size)) [
        | inl e ↦
            let more = ltb→lt (queue_round_to_power_of_two wanted) q.size e in
            let u = queue_round_to_power_of_two-RoundsUp q.size (omega arith) k in
            rw e (
              inr (
                of_RoundsUp wanted q.size q.size _ u (omega (arith, le-round wanted h))
                  (omega (arith, u.enough))))
        | inr e ↦
            let less : q.size ≤ queue_round_to_power_of_two wanted = ground arith in
            rw e (elim (dec_le wanted 0) [
              | yes p ↦
                  let none : wanted ≡ 0 = omega arith in
                  inl (
                    ap queue_round_to_power_of_two none ∙ round-zero,
                    none,
                    omega (arith, ap queue_round_to_power_of_two none, round-zero),
                  )
              | no p ↦ inr (
                  of_RoundsUp wanted q.size wanted _
                    (queue_round_to_power_of_two-RoundsUp wanted (omega arith) h) (omega arith)
                    less)
            ])
      ]

  module _ (m : Memory A) where
    open m use {Store}

    -- The new block holds the elements from its first slot on.
    abbrev Moved : Queue A → List A → List A → ℕ → List A → Type 0
    Moved q xs fresh c block = (length block ≡ length fresh) × Holds block c 0 xs

    move_into-Moved :
        (q : Queue A) (xs fresh : List A) (c : ℕ) (s : Store)
        → Models q xs
        → c ≤ length fresh
        → length xs ≤ c
        → Moved q xs fresh c (move_into m q q.block fresh s).0
    unfolding move_into
    move_into-Moved q xs fresh c s v room enough = elim v.stored [
      | inr n ↦
          subst (λ o. Moved q xs fresh c (move_into m q o fresh s).0) (sym n.absent)
            (refl, λ i l. absurd (omega (arith, v.fits, n.nothing)))
      | inl u ↦
          subst (λ o. Moved q xs fresh c (move_into m q o fresh s).0) (sym u.present)
            (elim (Bool-cases (ltb 0 q.size)) [
              | inl e ↦ rw e (
                length-linearize q u.buffer fresh,
                linearize-Holds q xs u.buffer fresh c v.counted v.fits u.head_in (capacity-lt u)
                    u.room room enough u.holds,
              )
              | inr e ↦ rw e (refl, λ i l. absurd (ground (arith, v.counted)))
            ])
    ]

    finish_reserve-Models :
        (q : Queue A) (xs fresh : List A) (wanted c : ℕ) (s : Store)
        → Models q xs
        → Suits wanted q.size c
        → length fresh ≡ c
        → length xs < c
        → Models (finish_reserve m q c (some fresh, s)).1 xs
    unfolding finish_reserve
    finish_reserve-Models q xs fresh wanted c s v t room gap =
        let (same, all) = move_into-Moved q xs fresh c s v (omega arith) (omega arith) in
        record {
          counted = v.counted;
          fits = omega arith;
          stored = inl (record {
            buffer = (move_into m q q.block fresh s).0;
            exponent = t.exponent;
            present = refl;
            small = t.small;
            power = t.power;
            masked = omega (arith, t.nonzero, t.power, pow-lt t.exponent 64 t.small);
            room = omega (arith, same, room);
            head_in = t.nonzero;
            tail_after = v.counted ∙ sym (rw zero-add (mod-eq_of_lt {n = length xs} {m = c} gap));
            holds = all;
          });
        }

    -- The allocation of the chosen capacity is refused.
    abbrev pub Refuses : Queue A → ℕ → Store → Type 0
    Refuses q wanted s =
        (allocate m q.linear q.element_size (mul_size (target_capacity q wanted) q.element_size)
          s).0
        ≡ none

    -- How a reservation ends: with the same elements in a queue of at least the wanted capacity,
    -- or, where the allocation is refused, with the queue as it was.
    pub data Reserved (q : Queue A) (xs : List A) (wanted : ℕ) (s : Store)
        : Bool × Queue A × Store → Type 0 where
      granted :
          {q' : Queue A} {s' : Store}
          → Models q' xs
          → wanted ≤ q'.capacity
          → Reserved q xs wanted s (true, q', s')
      refused : {s' : Store} → Refuses q wanted s → Reserved q xs wanted s (false, q, s')

    finish_reserve-Reserved :
        (q : Queue A) (xs : List A) (wanted c : ℕ) (s : Store) (res : Option (List A) × Store)
        → Models q xs
        → Suits wanted q.size c
        → ((block : List A) → res.0 ≡ some block → length block ≡ c)
        → length xs < c
        → (res.0 ≡ none → Refuses q wanted s)
        → Reserved q xs wanted s (finish_reserve m q c res)
    unfolding finish_reserve
    finish_reserve-Reserved q xs wanted c s (none, s') v t room gap why = refused (why refl)
    finish_reserve-Reserved q xs wanted c s (some fresh, s') v t room gap why =
        granted (finish_reserve-Models q xs fresh wanted c s' v t (room fresh refl) gap) t.enough

    release-Models :
        (q : Queue A) (xs : List A) (s : Store)
        → Models q xs
        → q.size ≡ 0
        → Models (release m q s).1 xs
    unfolding release
    release-Models q xs s v empty = record {
      counted = v.counted;
      fits = omega (arith, v.counted);
      stored = inr (record { absent = refl; nothing = refl });
    }

    -- `justQueueReserve` on a request of at most 2 ^ 63 slots whose bytes fit `size_t`, where the
    -- chosen capacity is not exactly the number of elements: it either succeeds with the same
    -- elements in the same order and at least the wanted capacity, or the allocation is refused and
    -- it fails with the queue as it was.
    pub reserve-Reserved :
        (q : Queue A) (xs : List A) (wanted : ℕ) (s : Store)
        → Models q xs
        → 0 < q.element_size
        → wanted ≤ 2 ^ 63
        → target_capacity q wanted * q.element_size < size_mod
        → (length xs ≡ 0) ⊎ (length xs ≢ target_capacity q wanted)
        → Reserved q xs wanted s (reserve m q wanted s)
    unfolding reserve release
    reserve-Reserved q xs wanted s v pos h fits gap =
        elim (Bool-cases (c == q.capacity && is_some q.block)) [
          | inl e ↦
              rw e
                (granted v (elim suits [ inl z ↦ omega arith | inr t ↦ ground (arith, t.enough) ]))
          | inr e ↦ rw e (elim suits [
            | inl z ↦
                let zero_capacity : (c == 0) ≡ true = ground (arith, z.0) in
                rw zero_capacity (
                  subst (λ r. Reserved q xs wanted s r) (release-eq z)
                    (granted (release-Models q xs s v z.2) (omega arith)))
            | inr t ↦
                let some_capacity : (c == 0) ≡ false = ground (arith, t.nonzero) in
                rw (some_capacity, mul_size-eq c q.element_size fits)
                  (finish_reserve-Reserved q xs wanted c s _ v t
                    (λ block got.
                      allocate-length m q.linear q.element_size (c * q.element_size) s _ block (
                        ap (λ o. (o, (allocate m q.linear q.element_size (c * q.element_size) s).1))
                          got)
                      ∙ mul-div_cancel c pos)
                    (omega (arith, t.holds_all, v.counted, t.nonzero))
                    (λ none_left. rw (mul_size-eq c q.element_size fits) none_left))
          ])
        ]
      where
        c : ℕ
        c = target_capacity q wanted

        suits : ((c ≡ 0) × (wanted ≡ 0) × (q.size ≡ 0)) ⊎ Suits wanted q.size c
        suits = target_capacity-Suits q wanted h (size-small q xs v)

        release-eq :
            (c ≡ 0) × (wanted ≡ 0) × (q.size ≡ 0)
            → (true, (release m q s).1, (release m q s).2) ≡ release m q s
        release-eq z = refl
