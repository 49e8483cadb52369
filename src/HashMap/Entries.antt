-- ===== src/HashMap/Entries.antt =====
-- A map read as a function from keys: what `justHashmapGet` says of a valid map, and after a write
-- to one slot.
use just_library.Base.{
  ℕ, ◌<◌, ◌≡◌, refl, sym, ap, ◌∙◌, subst, true, false, none, some, List, [], ◌∷◌, length, get_elem?,
  set, length-set, get_elem?-set_self, arith, inl, inr, Bool-cases, if◌then◌else◌, Option-cases,
}
use just_library.HashMap.{
  Slot, occupied, HashMap, slots_of, equal_keys, find_slot, get, pointed, value_in, with_slot,
}
use just_library.HashMap.Slots.{total, live, dead, written_cases, Placed, Has, same_trans}
use just_library.HashMap.Find.{IsValid, find_slot-some}
use just_library.HashMap.Probe.{find_slot-HoldsKey}

module _ {K V : Type 0} where
  -- an entry of the key somewhere in the map
  abbrev pub Entry : HashMap K V → K → V → Type 0
  Entry t q v = (j : ℕ) × Has t.hash_function (equal_keys t) (slots_of t) q j v

  unallocated :
      (t : HashMap K V) (q : K) (v : V)
      → t.capacity ≡ 0
      → length (slots_of t) ≡ t.capacity
      → Entry t q v
      → ⊥
  unallocated t q v e w (j, (h, k, at, s)) = go (slots_of t) (omega (arith, w)) at
    where
      go : (ss : List (Slot K V)) → length ss ≡ 0 → get_elem? ss j ≡ some (occupied h k v) → ⊥
      go [] l f = absurd (cc f)
      go (x ∷ ss) l f = absurd (omega arith)

  pub get-some : (t : HashMap K V) (q : K) (v : V) → IsValid t → Entry t q v → get t q ≡ some v
  unfolding get
  get-some t q v valid (j, (h, k, at, s)) = elim valid.sized [
    | inl e ↦ absurd (unallocated t q v e valid.width (j, (h, k, at, s)))
    | inr z ↦ ap (pointed t) (find_slot-some t valid z q j v (h, k, at, s)) ∙ ap value_in at
  ]

  -- What a lookup returns is an entry.
  pub get-Entry : (t : HashMap K V) (q : K) (v : V) → get t q ≡ some v → Entry t q v
  unfolding get
  get-Entry t q v e = elim (Option-cases (find_slot t q)) [
    | inl n ↦ let f : none ≡ some v = sym (ap (pointed t) n) ∙ e in absurd (cc f)
    | inr (j, found) ↦
        let (k, w, at, s) = find_slot-HoldsKey t q j found in
        let f : some w ≡ some v = sym (ap value_in at) ∙ sym (ap (pointed t) found) ∙ e in
        let same_value : w ≡ v = cc f in
        (
          j,
          (
            t.hash_function q,
            k,
            at ∙ ap (λ x. some (occupied (t.hash_function q) k x)) same_value,
            s,
          ),
        )
  ]

  pub get-none : (t : HashMap K V) (q : K) → ((v : V) → Entry t q v → ⊥) → get t q ≡ none
  get-none t q h = elim (Option-cases (get t q)) [
    | inl e ↦ e
    | inr (v, e) ↦ absurd (h v (get-Entry t q v e))
  ]

  -- Maps with the same entries of a key answer the same.
  pub get-agree :
      (t t' : HashMap K V) (q : K)
      → IsValid t
      → IsValid t'
      → ((v : V) → Entry t q v → Entry t' q v)
      → ((v : V) → Entry t' q v → Entry t q v)
      → get t' q ≡ get t q
  get-agree t t' q valid valid' there back = elim (Option-cases (get t q)) [
    | inl e ↦
        get-none t' q
          (λ v entry. let f : none ≡ some v = sym e ∙ get-some t q v valid (back v entry) in cc f)
        ∙ sym e
    | inr (v, e) ↦ get-some t' q v valid' (there v (get-Entry t q v e)) ∙ sym e
  ]

  -- the map with one slot written and new counters
  abbrev pub stored : HashMap K V → ℕ → Slot K V → ℕ → ℕ → HashMap K V
  stored t i s c d = record (with_slot t i s) { count = c; tombstone_count = d }

  pub slots-stored :
      (t : HashMap K V) (i : ℕ) (s : Slot K V) (c d : ℕ)
      → slots_of (stored t i s c d) ≡ set (slots_of t) i s
  slots-stored t i s c d = elim (Option-cases t.slots) [
    | inl e ↦ rw e refl
    | inr (ss, e) ↦ rw e refl
  ]

  pub stored-IsValid :
      (t : HashMap K V) (i : ℕ) (s : Slot K V) (c d : ℕ)
      → IsValid t
      → Placed t.hash_function (equal_keys t) (set (slots_of t) i s)
      → c ≡ total live (set (slots_of t) i s)
      → d ≡ total dead (set (slots_of t) i s)
      → IsValid (stored t i s c d)
  stored-IsValid t i s c d valid placed counted interred =
      let slots = slots-stored t i s c d in
      record {
        keyed = valid.keyed;
        width = ap length slots ∙ length-set (slots_of t) i s ∙ valid.width;
        sized = valid.sized;
        counted = counted ∙ sym (ap (total live) slots);
        interred = interred ∙ sym (ap (total dead) slots);
        placed = subst (Placed t.hash_function (equal_keys t)) (sym slots) placed;
      }

  -- An entry written where no entry of another key stood.
  pub get-stored :
      (t : HashMap K V) (i : ℕ) (h : ℕ) (k key : K) (value : V) (c d : ℕ)
      → IsValid t
      → IsValid (stored t i (occupied h k value) c d)
      → i < length (slots_of t)
      → equal_keys t k key ≡ true
      → ((h' : ℕ) (k' : K) (w : V)
          → get_elem? (slots_of t) i ≡ some (occupied h' k' w)
          → equal_keys t k' key ≡ true)
      → (q : K)
      → get (stored t i (occupied h k value) c d) q
        ≡ (if equal_keys t key q then some value else get t q)
  get-stored t i h k key value c d valid valid' l equal over q =
      let t' = stored t i (occupied h k value) c d in
      let slots = slots-stored t i (occupied h k value) c d in
      let at_new : get_elem? (slots_of t') i ≡ some (occupied h k value) =
        ap (λ ss. get_elem? ss i) slots
        ∙ get_elem?-set_self (slots_of t) i (occupied h k value) l in
      elim (Bool-cases (equal_keys t key q)) [
        | inl yes_same ↦ rw yes_same (
            get-some t' q value valid'
              (i, (h, k, at_new, same_trans valid.keyed k key q equal yes_same)))
        | inr other ↦ rw other (
            get-agree t t' q valid valid'
              (λ v entry.
                let (j, (h', k', at, s)) = entry in
                elim (written_cases (slots_of t) i j (occupied h k value) l) [
                  | inl (p, w) ↦
                      let old = over h' k' v (ap (get_elem? (slots_of t)) (sym p) ∙ at) in
                      let clash : true ≡ false =
                        sym s ∙ valid.keyed.same_left k' key q old ∙ other in
                      absurd (cc clash)
                  | inr (p, w) ↦ (j, (h', k', ap (λ ss. get_elem? ss j) slots ∙ w ∙ at, s))
                ])
              (λ v entry.
                let (j, (h', k', at, s)) = entry in
                let at' : get_elem? (set (slots_of t) i (occupied h k value)) j
                    ≡ some (occupied h' k' v) =
                  ap (λ ss. get_elem? ss j) (sym slots) ∙ at in
                elim (written_cases (slots_of t) i j (occupied h k value) l) [
                  | inl (p, w) ↦
                      let f : some (occupied h k value) ≡ some (occupied h' k' v) = sym w ∙ at' in
                      let keys : k ≡ k' = cc f in
                      let reads : equal_keys t k q ≡ true = rw keys s in
                      let clash : true ≡ false =
                        sym reads ∙ valid.keyed.same_left k key q equal ∙ other in
                      absurd (cc clash)
                  | inr (p, w) ↦ (j, (h', k', sym w ∙ at', s))
                ]))
      ]
