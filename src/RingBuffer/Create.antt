-- ===== src/RingBuffer/Create.antt =====
-- `justRingBufferCreate` and `justRingBufferDestroy`.
use native.Mathlib.Nat.{mul-div_cancel}
use just_library.Base.{
  ℕ, ◌+◌, ◌*◌, ◌^◌, ◌≤◌, ◌<◌, ◌≡◌, refl, sym, ap, ◌∙◌, Bool, true, false, Option, none, some, List,
  [], length, arith, mod-eq_of_lt, size_mod, sub_size, mul_size-eq,
}
use just_library.Base.Pow.{pow-lt}
use just_library.Memory.{Memory, allocate, allocate-length}
use just_library.PowerOfTwo.{ring_next_power_of_two}
use just_library.PowerOfTwo.Least.{RoundsUp, RoundsUp-unique, ring_next_power_of_two-RoundsUp}
use just_library.RingBuffer.{RingBuffer, create, finish_create}
use just_library.RingBuffer.Valid.{Models}

module _ {A : Type 0} where
  -- What creation leaves behind, by what the allocation returned: the capacity is the least power of
  -- two that reaches the wanted number.
  abbrev pub Created : Option (List A) → ℕ → Bool → Bool → RingBuffer A → Type 0
  Created none wanted overwrite done r = (done ≡ false) × (r.capacity ≡ 0) × (r.block ≡ none)
  Created (some block) wanted overwrite done r =
      (done ≡ true)
      × Models r []
      × RoundsUp 1 wanted r.capacity
      × (length block ≡ r.capacity)
      × (r.allow_overwrite ≡ overwrite)

module _ {A : Type 0} (m : Memory A) where
  open m use {Store}

  abbrev blank : ℕ → ℕ → Bool → Bool → RingBuffer A
  blank c e overwrite linear = record {
    block = none;
    capacity = c;
    mask = sub_size c 1;
    element_size = e;
    head = 0;
    tail = 0;
    count = 0;
    allow_overwrite = overwrite;
    linear = linear;
  }

  finish_create-Created :
      (wanted c e : ℕ) (overwrite linear : Bool) (res : Option (List A) × Store)
      → RoundsUp 1 wanted c
      → ((block : List A) → res.0 ≡ some block → length block ≡ c)
      → let (done, r, s') = finish_create m (blank c e overwrite linear) res in
        (s' ≡ res.1) × Created res.0 wanted overwrite done r
  unfolding finish_create
  finish_create-Created wanted c e overwrite linear (none, s) u room = (refl, (refl, refl, refl))
  finish_create-Created wanted c e overwrite linear (some block, s) u room = (
    refl,
    (
      refl,
      record {
        buffer = block;
        exponent = u.exponent;
        present = refl;
        small = u.small;
        power = u.power;
        masked = omega (arith, u.above, u.power, pow-lt u.exponent 64 u.small);
        room = omega (arith, room block refl);
        tail_in = omega (arith, u.above);
        counted = refl;
        fits = omega arith;
        head_after = sym (mod-eq_of_lt {n = 0 + 0} {m = c} (omega (arith, u.above)));
        holds = λ i h. elim h [ ];
      },
      u,
      room block refl,
      refl,
    ),
  )

  -- For a request of at most 2 ^ 63 elements, with `c` the least power of two that is at least the
  -- request and at least 1, where `c` elements fit `size_t`, creation asks for one block of `c`
  -- elements. Where that is granted it succeeds with a usable empty ring of capacity `c` and the given
  -- policy; where it is refused it fails, with no block and no capacity.
  pub create-Created :
      (wanted c e : ℕ) (overwrite linear : Bool) (s : Store)
      → wanted ≤ 2 ^ 63
      → RoundsUp 1 wanted c
      → 0 < e
      → c * e < size_mod
      → let (done, r, s') = create m wanted e overwrite linear s in
        let (block, after) = allocate m linear e (c * e) s in
        (s' ≡ after) × Created block wanted overwrite done r
  unfolding create
  create-Created wanted c e overwrite linear s h u pos fits =
      let same : ring_next_power_of_two wanted ≡ c =
        RoundsUp-unique 1 wanted (ring_next_power_of_two wanted) c
          (ring_next_power_of_two-RoundsUp wanted h) u in
      rw (same, mul_size-eq c e fits)
        (finish_create-Created wanted c e overwrite linear _ u (λ block got.
          allocate-length m linear e (c * e) s _ block
            (ap (λ o. (o, (allocate m linear e (c * e) s).1)) got)
          ∙ mul-div_cancel c pos))
