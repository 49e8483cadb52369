-- ===== src/HashMap/Remove.antt =====
-- What `justHashmapRemove` does to a valid map.
use just_library.Base.{
  get_elem?-lt, ℕ, ◌<◌, ◌≡◌, ◌≢◌, ◌^◌, refl, sym, ap, ◌∙◌, subst, Bool, true, false, none, some,
  Option-cases, is_some, get_elem?, set, arith, inl, inr, if◌then◌else◌, add_size, sub_size,
  Bool-cases,
}
use just_library.HashMap.{
  occupied, tombstone, HashMap, slots_of, equal_keys, get, buried, remove, find_slot, pointed,
}
use just_library.HashMap.Slots.{
  total-set, total-le, live, dead, written_cases, Has, same_sym, same_trans,
}
use just_library.HashMap.Write.{Placed-bury}
use just_library.HashMap.Find.{IsValid, size-lt}
use just_library.HashMap.Probe.{find_slot-HoldsKey}
use just_library.HashMap.Entries.{
  Entry, get-some, get-none, get-agree, stored, stored-IsValid, slots-stored,
}

module _ {K V : Type 0} (t : HashMap K V) (valid : IsValid t) (key : K) where
  -- what a removal leaves: a valid map that has no answer for the keys equal to `key`, and for the
  -- others what it answered before
  pub record Removed (r : Bool × HashMap K V) : Type 0 where
    pub done : r.0 ≡ is_some (get t key)
    pub still_valid : IsValid r.1
    pub reads : (q : K) → get r.1 q ≡ (if equal_keys t key q then none else get t q)

  capacity-lt : t.capacity < 2 ^ 60
  capacity-lt = elim valid.sized [ inl e ↦ omega arith | inr z ↦ size-lt z ]

  -- The entry of a key is in the slot at which its lookup stops, and in no other.
  module _ (i h : ℕ) (k : K) (v : V) (at : get_elem? (slots_of t) i ≡ some (occupied h k v))
      (equal : equal_keys t k key ≡ true) where
    abbrev c : ℕ
    c = sub_size t.count 1

    abbrev d : ℕ
    d = add_size t.tombstone_count 1

    abbrev after : HashMap K V
    after = stored t i (tombstone h k v) c d

    buried-IsValid : IsValid after
    buried-IsValid =
        let l = get_elem?-lt (slots_of t) i (occupied h k v) at in
        let fewer = total-set live (slots_of t) i (occupied h k v) (tombstone h k v) at in
        let more = total-set dead (slots_of t) i (occupied h k v) (tombstone h k v) at in
        let few = total-le (slots_of t) in
        let bound = capacity-lt in
        stored-IsValid t i (tombstone h k v) c d valid
          (Placed-bury valid.keyed (slots_of t) valid.placed i l h k v)
          (omega (arith, fewer, valid.counted, few, valid.width))
          (omega (arith, more, valid.interred, few, valid.width))

    get-buried : (q : K) → get after q ≡ (if equal_keys t key q then none else get t q)
    get-buried q =
        let l = get_elem?-lt (slots_of t) i (occupied h k v) at in
        let slots = slots-stored t i (tombstone h k v) c d in
        let back : (w : V)
            → Entry after q w
            → (j : ℕ) × (j ≢ i) × Has t.hash_function (equal_keys t) (slots_of t) q j w =
          λ w entry.
            let (j, (h', k', found, s)) = entry in
            let found' : get_elem? (set (slots_of t) i (tombstone h k v)) j
                ≡ some (occupied h' k' w) =
              ap (λ ss. get_elem? ss j) (sym slots) ∙ found in
            elim (written_cases (slots_of t) i j (tombstone h k v) l) [
              | inl (p, e) ↦
                  let f : some (tombstone h k v) ≡ some (occupied h' k' w) = sym e ∙ found' in
                  absurd (cc f)
              | inr (p, e) ↦ (j, p, (h', k', sym e ∙ found', s))
            ] in
        elim (Bool-cases (equal_keys t key q)) [
          | inl mine ↦ rw mine (
              get-none after q (λ w entry.
                let (j, apart, (h', k', found, s)) = back w entry in
                let with_q : equal_keys t k q ≡ true = same_trans valid.keyed k key q equal mine in
                let to_q : equal_keys t q k ≡ true = same_sym valid.keyed k q with_q in
                apart (
                  valid.placed.unique j i h' h k' k w v found at
                    (same_trans valid.keyed k' q k s to_q))))
          | inr other ↦ rw other (
              get-agree t after q valid buried-IsValid
                (λ w entry.
                  let (j, (h', k', found, s)) = entry in
                  elim (written_cases (slots_of t) i j (tombstone h k v) l) [
                    | inr (p, e) ↦ (j, (h', k', ap (λ ss. get_elem? ss j) slots ∙ e ∙ found, s))
                    | inl (p, e) ↦
                        let f : some (occupied h k v) ≡ some (occupied h' k' w) =
                          sym at ∙ ap (get_elem? (slots_of t)) (sym p) ∙ found in
                        let keys : k ≡ k' = cc f in
                        let reads : equal_keys t k q ≡ true = rw keys s in
                        let clash : true ≡ false =
                          sym reads ∙ valid.keyed.same_left k key q equal ∙ other in
                        absurd (cc clash)
                  ])
                (λ w entry. let (j, apart, has) = back w entry in (j, has)))
        ]

  missed : find_slot t key ≡ none → get t key ≡ none
  unfolding get
  missed e = ap (pointed t) e

  unchanged :
      find_slot t key ≡ none → (q : K) → get t q ≡ (if equal_keys t key q then none else get t q)
  unchanged e q = elim (Bool-cases (equal_keys t key q)) [
    | inr other ↦ rw other refl
    | inl mine ↦ rw mine (
        get-none t q (λ w entry.
          let (j, (h, k, at, s)) = entry in
          let to_key = same_sym valid.keyed key q mine in
          let found =
            get-some t key w valid (j, (h, k, at, same_trans valid.keyed k q key s to_key)) in
          let f : none ≡ some w = sym (missed e) ∙ found in cc f))
  ]

  -- `justHashmapRemove` on a valid map says whether the key had a value, leaves a valid map, and
  -- from then on no key equal to it has one, while every other key has what it had.
  pub remove-Removed : Removed (remove t key)
  unfolding remove
  remove-Removed = elim (Option-cases (find_slot t key)) [
    | inl e ↦
        rw (remove, e)
          (record { done = ap is_some (sym (missed e)); still_valid = valid; reads = unchanged e })
    | inr (i, e) ↦
        let (k, v, at, equal) = find_slot-HoldsKey t key i e in
        let hash = t.hash_function key in
        rw (remove, e)
          (subst
            (λ o.
              Removed
                (true, stored t i (buried o) (sub_size t.count 1) (add_size t.tombstone_count 1)))
            (sym at)
            (record {
              done = ap is_some (sym (get-some t key v valid (i, (hash, k, at, equal))));
              still_valid = buried-IsValid i hash k v at equal;
              reads = get-buried i hash k v at equal;
            }))
  ]
