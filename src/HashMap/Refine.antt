-- ===== src/HashMap/Refine.antt =====
-- `justHashmapSet` on a valid map.
use native.Mathlib.Decide.{dec_lt}
use just_library.Base.{
  ℕ, suc, ◌*◌, ◌-◌, ◌^◌, ◌<◌, ◌≡◌, ◌⊎◌, refl, sym, ap, ◌∙◌, subst, Bool, true, false, Option, none,
  some, List, arith, inl, inr, Bool-cases, if◌then◌else◌, size_mod, sub_size, mul_size, ltb, ◌==◌,
}
use just_library.Base.Int.{ℤ, pos}
use just_library.Base.Pow.{pow-double, pow_mono}
use just_library.Memory.{Memory}
use just_library.HashMap.{
  Slot, HashMap, slots_of, equal_keys, get, emptied, is_loaded, resize_target, allocate_slots,
  resize, put, insert,
}
use just_library.HashMap.Slots.{total, total-le, live}
use just_library.HashMap.Find.{Sized, IsValid, size-pos, size-lt}
use just_library.HashMap.Put.{Put, place-Put}
use just_library.HashMap.Rehash.{Rehashed, Resized, granted, refused, resize-Resized}

masked_below : (c : ℕ) → 0 < c → c < 2 ^ 60 → sub_size c 1 ≡ c - 1
masked_below c p l = omega arith

Sized-double : {c m : ℕ} → Sized c m → c < 2 ^ 58 → Sized (mul_size c 2) (sub_size (mul_size c 2) 1)
Sized-double {c} z l =
    let few : z.exponent < 58 = (elim (dec_lt z.exponent 58) [
      | yes h ↦ h
      | no h ↦ absurd (omega (arith, z.power, pow_mono 58 z.exponent (omega arith)))
    ]) in
    let twice = pow-double z.exponent in
    let some_slots = size-pos z in
    record {
      exponent = suc z.exponent;
      small = omega (arith, few);
      power = omega (arith, z.power, twice);
      masked = masked_below (mul_size c 2) (omega arith) (omega arith);
    }

Sized-same : {c m : ℕ} → Sized c m → Sized c (sub_size c 1)
Sized-same {c} z = record {
  exponent = z.exponent;
  small = z.small;
  power = z.power;
  masked = masked_below c (size-pos z) (size-lt z);
}

module _ {K V : Type 0} where
  -- the capacity that `justHashmapSet` asks for, and when it asks
  abbrev pub target : HashMap K V → ℕ
  target t = if t.capacity == 0 then 16 else resize_target t

  abbrev pub Asks : HashMap K V → Type 0
  Asks t = (t.capacity ≡ 0) ⊎ (is_loaded t ≡ true)

  -- How a store ends: with the entry stored, or, where the map asks for new slots and the memory
  -- is refused, with a map without entries.
  pub data Inserted (t : HashMap K V) (key : K) (value : V) {S : Type 0}
      (asked : Option (List (Slot K V))) : Bool × HashMap K V × S → Type 0 where
    stored :
        {b : Bool} {t' : HashMap K V} {s : S}
        → Put t key value (b, t')
        → Inserted t key value asked (b, t', s)
    lost :
        {s : S}
        → Asks t
        → asked ≡ none
        → Inserted t key value asked (false, emptied t (target t), s)

  -- A store after a rehash is a store.
  after_rehash :
      {t t' : HashMap K V} {c : ℕ} (key : K) (value : V) {r : Bool × HashMap K V}
      → Rehashed t c t'
      → Put t' key value r
      → Put t key value r
  after_rehash {t} {t'} key value r p = record {
    done = p.done;
    valid = p.valid;
    reads = λ q.
        p.reads q
        ∙ ap
            (λ (cmp : K → K → ℤ).
              if elim (cmp key q) [ pos n ↦ n == 0 | _ ↦ false ] then some value else get t' q)
            r.same_compare
        ∙ ap (λ o. if equal_keys t key q then some value else o) (r.reads q);
    same_hash = p.same_hash ∙ r.same_hash;
    same_compare = p.same_compare ∙ r.same_compare;
  }

  -- The end of `justHashmapSet` where there is room.
  put-Put :
      (m : Memory (Slot K V)) (t : HashMap K V) (key : K) (value : V) (s : m.Store)
      (asked : Option (List (Slot K V)))
      → IsValid t
      → Sized t.capacity t.mask
      → total live (slots_of t) < t.capacity
      → Inserted t key value asked (put m key value (true, t, s))
  unfolding put
  put-Put m t key value s asked valid z room = stored (place-Put t valid z key value room)

  resized-Inserted :
      (m : Memory (Slot K V)) (t : HashMap K V) (key : K) (value : V)
      (asked : Option (List (Slot K V))) {r : Bool × HashMap K V × m.Store}
      → IsValid t
      → Asks t
      → Sized (target t) (sub_size (target t) 1)
      → total live (slots_of t) < target t
      → Resized t (target t) asked r
      → Inserted t key value asked (put m key value r)
  unfolding put
  resized-Inserted m t key value asked valid asks z room (refused e) = lost asks e
  resized-Inserted m t key value asked valid asks z room (granted {t' = t'} r) =
      let small = size-lt z in
      let some_slots = size-pos z in
      let z' : Sized t'.capacity t'.mask = record {
        exponent = z.exponent;
        small = z.small;
        power = r.same_capacity ∙ z.power;
        masked = omega (arith, r.same_mask, r.same_capacity);
      } in
      stored (
        after_rehash key value r (
          place-Put t' r.valid z' key value
            (omega (arith, r.valid.counted, r.counted, valid.counted, r.same_capacity))))

  -- The capacity asked for is a power of two with room for the entries.
  target-Sized :
      (t : HashMap K V)
      → IsValid t
      → t.capacity < 2 ^ 58
      → Sized (target t) (sub_size (target t) 1) × (total live (slots_of t) < target t)
  target-Sized t valid l = elim valid.sized [
    | inl e ↦
        let z : (t.capacity == 0) ≡ true = ground arith in
        let few = total-le (slots_of t) in
        rw z (
          record { exponent = 4; small = omega arith; power = refl; masked = refl },
          omega (arith, few, valid.width, e),
        )
    | inr z ↦
        let some_slots = size-pos z in
        let not_none : (t.capacity == 0) ≡ false = ground (arith, some_slots) in
        let few = total-le (slots_of t) in
        rw not_none (elim (Bool-cases (ltb t.capacity (mul_size t.count 2))) [
          | inl b ↦ rw b (Sized-double z l, omega (arith, some_slots, few, valid.width))
          | inr b ↦
              rw b (Sized-same z, ground (arith, b, some_slots, few, valid.width, valid.counted))
        ])
  ]

  is_loaded-room :
      (t : HashMap K V)
      → IsValid t
      → 0 < t.capacity
      → t.capacity < 2 ^ 58
      → is_loaded t ≡ false
      → total live (slots_of t) < t.capacity
  is_loaded-room t valid some_slots l e =
      let few = total-le (slots_of t) in
      ground (arith, few, valid.counted, valid.interred, valid.width)

  insert-Asks :
      (m : Memory (Slot K V)) (t : HashMap K V) (key : K) (value : V) (s : m.Store)
      → Asks t
      → insert m t key value s ≡ put m key value (resize m t (target t) s)
  unfolding insert
  insert-Asks m t key value s asks = elim (Bool-cases (t.capacity == 0)) [
    | inl z ↦ rw z refl
    | inr z ↦ elim asks [ inl e ↦ absurd (ground (arith, e, z)) | inr e ↦ rw (z, e) refl ]
  ]

  insert-fits :
      (m : Memory (Slot K V)) (t : HashMap K V) (key : K) (value : V) (s : m.Store)
      → 0 < t.capacity
      → is_loaded t ≡ false
      → insert m t key value s ≡ put m key value (true, t, s)
  unfolding insert
  insert-fits m t key value s some_slots e =
      let z : (t.capacity == 0) ≡ false = ground (arith, some_slots) in rw (z, e) refl

  -- `justHashmapSet` on a valid map of less than 2^58 slots, whose slots fit `size_t`: it stores the
  -- entry, or the map asks for new slots and the memory is refused.
  pub insert-Inserted :
      (m : Memory (Slot K V)) (t : HashMap K V) (key : K) (value : V) (s : m.Store)
      → IsValid t
      → t.capacity < 2 ^ 58
      → 0 < t.layout_of.slot_stride
      → target t * t.layout_of.slot_stride < size_mod
      → Inserted t key value
          (allocate_slots m (emptied t (target t)) (target t) s).0
          (insert m t key value s)
  insert-Inserted m t key value s valid l some_stride fits =
      let (z, room) = target-Sized t valid l in
      let grown : Asks t
          → Inserted t key value (allocate_slots m (emptied t (target t)) (target t) s).0
              (insert m t key value s) =
        λ asks. subst (Inserted t key value _) (sym (insert-Asks m t key value s asks)) (
          resized-Inserted m t key value _ valid asks z room
            (resize-Resized m t valid (target t) z room s some_stride fits)) in
      elim valid.sized [
        | inl e ↦ grown (inl e)
        | inr z' ↦ elim (Bool-cases (is_loaded t)) [
          | inl e ↦ grown (inr e)
          | inr e ↦
              subst (Inserted t key value _) (sym (insert-fits m t key value s (size-pos z') e))
                (put-Put m t key value s _ valid z' (is_loaded-room t valid (size-pos z') l e))
        ]
      ]
