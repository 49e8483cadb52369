-- ===== src/HashMap/Choose.antt =====
-- Where the loop of `justHashmapSet` puts an entry.
use native.Mathlib.Decide.{ℕ_discrete, dec_lt}
use native.Mathlib.Nat.{mod-lt}
use just_library.Base.{
  ℕ, zero, suc, ◌+◌, ◌%◌, ◌<◌, ◌≡◌, refl, sym, ap, ◌∙◌, subst, true, ◌&&◌, Option, none, some,
  length, get_elem?, arith, inl, inr, ◌⊎◌, Bool-cases, if◌then◌else◌, ◌==◌, bit_and, get_elem?-some,
}
use just_library.HashMap.{
  Slot, empty, occupied, tombstone, HashMap, slots_of, equal_keys, probe, Place, found, fresh,
  reuse, nowhere, place_loop,
}
use just_library.HashMap.Slots.{
  spot, spot-onto, Filled, Taken, Reached, total, live, total-full, Has,
}
use just_library.HashMap.Find.{Sized, IsValid, size-pos, probe-spot}

-- What holds below `i` and at `i` holds below the next.
pub below_suc : {P : ℕ → Type 0} (i : ℕ) → ((e : ℕ) → e < i → P e) → P i → (e : ℕ) → e < i + 1 → P e
below_suc {P} i h p e l = elim (ℕ_discrete e i) [
  | yes q ↦ subst P (sym q) p
  | no q ↦ h e (omega arith)
]

module _ {K V : Type 0} (t : HashMap K V) (key : K) where
  abbrev hash : ℕ
  hash = t.hash_function key

  abbrev pub at_slot : ℕ → Option (Slot K V)
  at_slot j = get_elem? (slots_of t) j

  -- the slot of step `i` of the probe for the key
  abbrev pub at_step : ℕ → Option (Slot K V)
  at_step i = at_slot (spot t.capacity hash i)

  -- no entry of the key
  abbrev pub Misses : Option (Slot K V) → Type 0
  Misses o = (k : K) (w : V) → o ≡ some (occupied hash k w) → equal_keys t k key ≡ true → ⊥

  abbrev pub IsAbsent : Type 0
  IsAbsent = (j : ℕ) (v : V) → Has t.hash_function (equal_keys t) (slots_of t) key j v → ⊥

  -- The first tombstone of the steps before `i`, or that they are all entries.
  abbrev Seen : ℕ → Option ℕ → Type 0
  Seen i none = (e : ℕ) → e < i → Taken (at_step e)
  Seen i (some j) =
      (d : ℕ) × (d < i)
      × (spot t.capacity hash d ≡ j)
      × (h : ℕ) × (k : K) × (v : V) × (at_slot j ≡ some (tombstone h k v))

  -- What the place that the loop returns is good for.
  pub data Chosen : Place → Type 0 where
    over :
        {p : ℕ} (k : K) (w : V)
        → at_slot p ≡ some (occupied hash k w)
        → equal_keys t k key ≡ true
        → Chosen (found p)
    into :
        {p : ℕ} (s : Slot K V)
        → at_slot p ≡ some s
        → live s ≡ 0
        → Reached (slots_of t) hash p
        → IsAbsent
        → Chosen (fresh p)
    again :
        {p : ℕ} (h : ℕ) (k : K) (v : V)
        → at_slot p ≡ some (tombstone h k v)
        → Reached (slots_of t) hash p
        → IsAbsent
        → Chosen (reuse p)

  -- the step of the loop, on the slot that it reads
  abbrev chosen : ℕ → Option ℕ → Option (Slot K V) → Place → Place → Place
  chosen p tomb o rest rest_from = elim o [
    | none ↦ nowhere
    | some empty ↦ fresh (elim tomb [ none ↦ p | some j ↦ j ])
    | some (tombstone h k v) ↦ rest_from
    | some (occupied h k v) ↦ if h == hash && equal_keys t k key then found p else rest
  ]

  module _ (valid : IsValid t) (z : Sized t.capacity t.mask)
      (room : total live (slots_of t) < t.capacity) where
    pub Reached-at :
        (d : ℕ)
        → d < t.capacity
        → ((e : ℕ) → e < d → Filled (at_step e))
        → Reached (slots_of t) hash (spot t.capacity hash d)
    Reached-at d l path = (
      d,
      omega (arith, valid.width),
      ap (λ n. spot n hash d) valid.width,
      subst (λ n. (e : ℕ) → e < d → Filled (at_slot (spot n hash e))) (sym valid.width) path,
    )

    -- A probe that has passed the steps before `i` and stops at an empty slot, or at the end, has
    -- missed no entry of the key.
    absent :
        (i : ℕ)
        → ((e : ℕ) → e < i → Misses (at_step e))
        → ((at_step i ≡ some empty) ⊎ (i ≡ t.capacity))
        → IsAbsent
    absent i missed stop j v has =
        let hashes =
          valid.placed.hashed j has.0 has.1 v has.2 ∙ valid.keyed.hash_same has.1 key has.3 in
        let (d, small, at, path) =
          subst (λ x. Reached (slots_of t) x j) hashes
            (valid.placed.reached j has.0 has.1 v has.2) in
        let at' : spot t.capacity hash d ≡ j = subst (λ n. spot n hash d ≡ j) valid.width at in
        let path' : (e : ℕ) → e < d → Filled (at_step e) =
          subst (λ n. (e : ℕ) → e < d → Filled (at_slot (spot n hash e))) valid.width path in
        let there : at_step d ≡ some (occupied hash has.1 v) =
          ap at_slot at' ∙ has.2 ∙ ap (λ x. some (occupied x has.1 v)) hashes in
        elim (dec_lt d i) [
          | yes l ↦ missed d l has.1 v there has.3
          | no l ↦ elim stop [
            | inr e ↦ absurd (omega (arith, valid.width))
            | inl e ↦ elim (ℕ_discrete d i) [
              | no q ↦ subst Filled e (path' i (omega arith))
              | yes q ↦
                  let f : some (occupied hash has.1 v) ≡ some empty =
                    sym there ∙ ap at_step q ∙ e in
                  absurd (cc f)
            ]
          ]
        ]

    Seen-more : (i : ℕ) (tomb : Option ℕ) → Seen i tomb → Taken (at_step i) → Seen (i + 1) tomb
    Seen-more i none seen taken = below_suc i seen taken
    Seen-more i (some j) (d, l, at, h, k, v, e) taken = (d, omega arith, at, h, k, v, e)

    Seen-tomb :
        (i p : ℕ) (tomb : Option ℕ) (h : ℕ) (k : K) (v : V)
        → Seen i tomb
        → p ≡ spot t.capacity hash i
        → at_step i ≡ some (tombstone h k v)
        → Seen (i + 1) (some (elim tomb [ none ↦ p | some j ↦ j ]))
    Seen-tomb i p none h k v seen here at =
        (i, omega arith, sym here, h, k, v, ap at_slot here ∙ at)
    Seen-tomb i p (some j) h k v (d, l, at', h', k', v', e') here at =
        (d, omega arith, at', h', k', v', e')

    -- The place for a key that is absent: the first tombstone, or the empty slot.
    into_empty :
        (i p : ℕ) (tomb : Option ℕ)
        → i < t.capacity
        → ((e : ℕ) → e < i → Filled (at_step e))
        → IsAbsent
        → Seen i tomb
        → p ≡ spot t.capacity hash i
        → at_step i ≡ some empty
        → Chosen (fresh (elim tomb [ none ↦ p | some j ↦ j ]))
    into_empty i p none l filled gone seen here at =
        into empty (ap at_slot here ∙ at) refl
          (subst (Reached (slots_of t) hash) (sym here) (Reached-at i l filled)) gone
    into_empty i p (some j) l filled gone (d, l', at', h, k, v, tomb) here at =
        into (tombstone h k v) tomb refl
          (subst (Reached (slots_of t) hash) at'
            (Reached-at d (omega arith) (λ e le. filled e (omega arith))))
          gone

    -- One step of the loop, from what the later steps return.
    chosen-Chosen :
        (i : ℕ) (tomb : Option ℕ) (o : Option (Slot K V)) (p : ℕ) (later : Option ℕ → Place)
        → i < t.capacity
        → ((e : ℕ) → e < i → Filled (at_step e))
        → ((e : ℕ) → e < i → Misses (at_step e))
        → Seen i tomb
        → p ≡ spot t.capacity hash i
        → at_step i ≡ o
        → ((tomb' : Option ℕ)
            → ((e : ℕ) → e < i + 1 → Filled (at_step e))
            → ((e : ℕ) → e < i + 1 → Misses (at_step e))
            → Seen (i + 1) tomb'
            → Chosen (later tomb'))
        → Chosen (chosen p tomb o (later tomb) (later (some (elim tomb [ none ↦ p | some j ↦ j ]))))
    chosen-Chosen i tomb none p later l filled missed seen here at next =
        let inside : spot t.capacity hash i < length (slots_of t) =
          omega (arith, valid.width, mod-lt (hash % t.capacity + i) (size-pos z)) in
        let (s, got) = get_elem?-some (slots_of t) _ inside in
        let f : none ≡ some s = sym at ∙ got in absurd (cc f)
    chosen-Chosen i tomb (some empty) p later l filled missed seen here at next =
        into_empty i p tomb l filled (absent i missed (inl at)) seen here at
    chosen-Chosen i tomb (some (tombstone h k v)) p later l filled missed seen here at next =
        next (some (elim tomb [ none ↦ p | some j ↦ j ]))
          (below_suc i filled (subst Filled (sym at) tt))
          (below_suc i missed (λ k' w e _.
            let f : some (tombstone h k v) ≡ some (occupied hash k' w) = sym at ∙ e in cc f))
          (Seen-tomb i p tomb h k v seen here at)
    chosen-Chosen i tomb (some (occupied h k v)) p later l filled missed seen here at next =
        elim (Bool-cases (h == hash && equal_keys t k key)) [
          | inl match ↦
              let hashes : h ≡ hash = ground arith in
              let equal : equal_keys t k key ≡ true = ground arith in
              rw match
                (over k v (ap at_slot here ∙ at ∙ ap (λ x. some (occupied x k v)) hashes) equal)
          | inr other ↦ rw other (
              next tomb (below_suc i filled (subst Filled (sym at) tt))
                (below_suc i missed (λ k' w e equal.
                  let f : some (occupied h k v) ≡ some (occupied hash k' w) = sym at ∙ e in
                  let hashes : h ≡ hash = cc f in
                  let keys : k ≡ k' = cc f in
                  let equal' : equal_keys t k key ≡ true = rw keys equal in
                  absurd (ground (arith, other, hashes, equal'))))
                (Seen-more i tomb seen (subst Taken (sym at) tt)))
        ]

    -- A probe of the whole table meets a slot that is not taken.
    pub not_full : ((e : ℕ) → e < t.capacity → Taken (at_step e)) → ⊥
    not_full taken =
        let full = total-full (slots_of t) (λ j l.
          let (d, small, at) = spot-onto t.capacity hash j (omega (arith, valid.width)) in
          subst (λ x. Taken (at_slot x)) at (taken d small)) in
        omega (arith, full, valid.width)

    -- The loop from step `i` on.
    pub place_loop-Chosen :
        (m i : ℕ) (tomb : Option ℕ)
        → m + i ≡ t.capacity
        → ((e : ℕ) → e < i → Filled (at_step e))
        → ((e : ℕ) → e < i → Misses (at_step e))
        → Seen i tomb
        → Chosen (place_loop t key hash (bit_and hash t.mask) m i tomb)
    unfolding place_loop
    place_loop-Chosen zero i none sum filled missed seen =
        absurd (not_full (λ e l. seen e (omega arith)))
    place_loop-Chosen zero i (some j) sum filled missed (d, l, at, h, k, v, tomb) =
        again h k v tomb
          (subst (Reached (slots_of t) hash) at
            (Reached-at d (omega arith) (λ e le. filled e (omega arith))))
          (absent i missed (inr (omega arith)))
    place_loop-Chosen (suc m) i tomb sum filled missed seen =
        let here = probe-spot z hash i (omega arith) in
        chosen-Chosen i tomb (at_slot (probe t (bit_and hash t.mask) i))
          (probe t (bit_and hash t.mask) i)
          (λ tomb'. place_loop t key hash (bit_and hash t.mask) m (i + 1) tomb') (omega arith)
          filled missed seen here (ap at_slot (sym here))
          (λ tomb' f' m' s'. place_loop-Chosen m (i + 1) tomb' (omega arith) f' m' s')
