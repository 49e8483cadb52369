-- ===== src/HashMap/Find.antt =====
-- `justHashmapGet` finds every entry of a valid map.
use native.Mathlib.Decide.{ℕ_discrete}
use native.Mathlib.Nat.{mod-lt}
use just_library.Base.{
  ℕ, zero, suc, ◌+◌, ◌-◌, ◌%◌, ◌^◌, ◌≤◌, ◌<◌, ◌≡◌, ◌≢◌, refl, sym, ap, ◌∙◌, subst, true, false,
  ◌&&◌, ◌||◌, Option, none, some, length, get_elem?, arith, inl, inr, ◌⊎◌, Bool-cases,
  if◌then◌else◌, ◌==◌, bit_and, add_size, get_elem?-some, mod-add-mod, mod-eq_of_lt,
}
use just_library.Base.Pow.{pow-pos, pow-lt}
use just_library.Base.Bits.{bit_and_mask}
use just_library.HashMap.{
  Slot, empty, occupied, tombstone, HashMap, slots_of, equal_keys, probe, find_loop, find_slot,
}
use just_library.HashMap.Slots.{
  spot, Filled, Reached, total, live, dead, total-pos, IsKeyed, Placed, Has, same_sym,
}

-- The capacity is a power of two, and the mask is one less.
pub record Sized (capacity mask : ℕ) : Type 0 where
  pub exponent : ℕ
  pub small : exponent < 60
  pub power : capacity ≡ 2 ^ exponent
  pub masked : mask ≡ capacity - 1

module _ {K V : Type 0} where
  -- A map with its slots, its counters right, and its entries where the probes find them.
  pub record IsValid (t : HashMap K V) : Type 0 where
    pub keyed : IsKeyed t.hash_function (equal_keys t)
    pub width : length (slots_of t) ≡ t.capacity
    pub sized : (t.capacity ≡ 0) ⊎ Sized t.capacity t.mask
    pub counted : t.count ≡ total live (slots_of t)
    pub interred : t.tombstone_count ≡ total dead (slots_of t)
    pub placed : Placed t.hash_function (equal_keys t) (slots_of t)

module _ {c m : ℕ} (z : Sized c m) where
  pub size-pos : 0 < c
  size-pos = omega (arith, z.power, pow-pos z.exponent)

  pub size-lt : c < 2 ^ 60
  size-lt = omega (arith, z.power, pow-lt z.exponent 60 z.small)

  -- Masking is the remainder.
  pub mask-mod : (x : ℕ) → bit_and x m ≡ x % c
  mask-mod x =
      let e : m ≡ 2 ^ z.exponent - 1 = omega (arith, z.masked, z.power) in
      rw (e, z.power) (bit_and_mask z.exponent x)

  pub spot-zero : (h : ℕ) → bit_and h m ≡ spot c h 0
  spot-zero h =
      mask-mod h
      ∙ sym (
          ap (λ x. x % c) {x = h % c + 0} {y = h % c} (omega arith)
          ∙ mod-eq_of_lt {n = h % c} {m = c} (mod-lt h size-pos))

  -- A step of the probe, and the step after one.
  pub probe-spot : (h i : ℕ) → i < c → bit_and (add_size (bit_and h m) i) m ≡ spot c h i
  probe-spot h i l =
      let small = size-lt in
      let below = mod-lt h size-pos in
      mask-mod (add_size (bit_and h m) i)
      ∙ ap (λ x. x % c) {y = h % c + i} (omega (arith, mask-mod h))

  pub spot-suc : (h i : ℕ) → bit_and (add_size (spot c h i) 1) m ≡ spot c h (i + 1)
  spot-suc h i =
      let small = size-lt in
      let below = mod-lt (h % c + i) size-pos in
      mask-mod (add_size (spot c h i) 1)
      ∙ ap (λ x. x % c) {x = add_size (spot c h i) 1} {y = spot c h i + 1} (omega arith)
      ∙ mod-add-mod (h % c + i) c 1
      ∙ ap (λ x. x % c) {x = h % c + i + 1} {y = h % c + (i + 1)} (omega arith)

module _ {K V : Type 0} (t : HashMap K V) where
  -- what the loop of a lookup does with the slot that it reads
  abbrev looked : K → ℕ → ℕ → Option (Slot K V) → Option ℕ → Option ℕ
  looked key hash p o rest = elim o [
    | none ↦ none
    | some empty ↦ none
    | some (tombstone h k v) ↦ rest
    | some (occupied h k v) ↦ if h == hash && equal_keys t k key then some p else rest
  ]

  module _ (valid : IsValid t) (z : Sized t.capacity t.mask) (key : K) (j : ℕ) (v : V)
      (has : Has t.hash_function (equal_keys t) (slots_of t) key j v) where
    abbrev hash : ℕ
    hash = t.hash_function key

    has-hash : has.0 ≡ hash
    has-hash = valid.placed.hashed j has.0 has.1 v has.2 ∙ valid.keyed.hash_same has.1 key has.3

    -- One step, at or before the step at which the entry stands.
    looked-found :
        (o : Option (Slot K V)) (rest : Option ℕ) (p i d : ℕ)
        → get_elem? (slots_of t) p ≡ o
        → p < length (slots_of t)
        → i ≤ d
        → (i ≡ d → p ≡ j)
        → (i ≢ d → Filled o)
        → (i ≢ d → rest ≡ some j)
        → looked key hash p o rest ≡ some j
    looked-found none rest p i d at inside le here path later =
        let (s, found) = get_elem?-some (slots_of t) p inside in
        let f : none ≡ some s = sym at ∙ found in absurd (cc f)
    looked-found (some empty) rest p i d at inside le here path later = elim (ℕ_discrete i d) [
      | no q ↦ absurd (path q)
      | yes q ↦
          let f : some empty ≡ some (occupied has.0 has.1 v) =
            sym at ∙ ap (get_elem? (slots_of t)) (here q) ∙ has.2 in
          absurd (cc f)
    ]
    looked-found (some (tombstone h k w)) rest p i d at inside le here path later =
        elim (ℕ_discrete i d) [
          | no q ↦ later q
          | yes q ↦
              let f : some (tombstone h k w) ≡ some (occupied has.0 has.1 v) =
                sym at ∙ ap (get_elem? (slots_of t)) (here q) ∙ has.2 in
              absurd (cc f)
        ]
    looked-found (some (occupied h k w)) rest p i d at inside le here path later =
        elim (Bool-cases (h == hash && equal_keys t k key)) [
          | inl match ↦
              let equal : equal_keys t k key ≡ true = ground arith in
              let backwards : equal_keys t key has.1 ≡ true =
                same_sym valid.keyed has.1 key has.3 in
              let both : equal_keys t k has.1 ≡ true =
                valid.keyed.same_left k key has.1 equal ∙ backwards in
              rw match (ap some (valid.placed.unique p j h has.0 k has.1 w v at has.2 both))
          | inr other ↦ rw other (elim (ℕ_discrete i d) [
            | no q ↦ later q
            | yes q ↦
                let f : some (occupied h k w) ≡ some (occupied has.0 has.1 v) =
                  sym at ∙ ap (get_elem? (slots_of t)) (here q) ∙ has.2 in
                let hashes : h ≡ has.0 = cc f in
                let keys : k ≡ has.1 = cc f in
                let equal : equal_keys t k key ≡ true = rw keys has.3 in
                let same_hash : h ≡ hash = hashes ∙ has-hash in
                absurd (ground (arith, other, same_hash, equal))
          ])
        ]

    find_loop-some :
        (m i d : ℕ)
        → m + i ≡ t.capacity
        → d < t.capacity
        → i ≤ d
        → spot t.capacity hash d ≡ j
        → ((e : ℕ) → e < d → Filled (get_elem? (slots_of t) (spot t.capacity hash e)))
        → find_loop t key hash (bit_and hash t.mask) m i ≡ some j
    unfolding find_loop
    find_loop-some zero i d sum small le at path = absurd (omega arith)
    find_loop-some (suc m) i d sum small le at path =
        let here : probe t (bit_and hash t.mask) i ≡ spot t.capacity hash i =
          probe-spot z hash i (omega arith) in
        looked-found (get_elem? (slots_of t) (probe t (bit_and hash t.mask) i))
          (find_loop t key hash (bit_and hash t.mask) m (i + 1)) (probe t (bit_and hash t.mask) i) i
          d refl (omega (arith, here, valid.width, mod-lt (hash % t.capacity + i) (size-pos z))) le
          (λ q. here ∙ ap (spot t.capacity hash) q ∙ at)
          (λ q. subst (λ x. Filled (get_elem? (slots_of t) x)) (sym here) (path i (omega arith)))
          (λ q. find_loop-some m (i + 1) d (omega arith) small (omega arith) at path)

    -- The lookup of a key finds the slot of its entry.
    pub find_slot-some : find_slot t key ≡ some j
    unfolding find_slot
    find_slot-some =
        let (d, small, at, path) =
          subst (λ x. Reached (slots_of t) x j) has-hash
            (valid.placed.reached j has.0 has.1 v has.2) in
        let some_entries : (t.count == 0 || t.capacity == 0) ≡ false =
          ground (arith, valid.counted, total-pos (slots_of t) j has.0 has.1 v has.2, size-pos z) in
        rw some_entries (
          find_loop-some t.capacity 0 d (omega arith) (omega (arith, valid.width)) (omega arith)
            (subst (λ n. spot n hash d ≡ j) valid.width at)
            (subst (λ n. (e : ℕ) → e < d → Filled (get_elem? (slots_of t) (spot n hash e)))
              valid.width path))
