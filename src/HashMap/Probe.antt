-- ===== src/HashMap/Probe.antt =====
-- What the probe of `justHashmapGet` and `justHashmapRemove` stops at.
use just_library.Base.{
  ℕ, zero, suc, ◌+◌, ◌≡◌, refl, sym, ap, ◌∙◌, true, Option, none, some, arith, ◌==◌, ◌||◌, ◌&&◌,
  get_elem?, Bool-cases, inl, inr, if◌then◌else◌,
}
use just_library.HashMap.{
  Slot, empty, occupied, tombstone, HashMap, find_slot, find_loop, slots_of, equal_keys, probe,
}

-- the number in an option
number : Option ℕ → ℕ
number none = 0
number (some i) = i

module _ {K V : Type 0} where
  -- the slot `j` holds an entry of the hash, under a key that the comparison calls equal
  abbrev pub HoldsKey : HashMap K V → K → ℕ → ℕ → Type 0
  HoldsKey t key hash j =
      (k : K) × (v : V) × (get_elem? (slots_of t) j ≡ some (occupied hash k v))
      × (equal_keys t k key ≡ true)

  -- one step of the loop, on the slot that it reads and what the later steps return
  stop_at :
      (t : HashMap K V) (key : K) (hash p j : ℕ) (o : Option (Slot K V)) (rest : Option ℕ)
      → get_elem? (slots_of t) p ≡ o
      → (rest ≡ some j → HoldsKey t key hash j)
      → (elim o [
        | none ↦ none
        | some empty ↦ none
        | some (tombstone h k v) ↦ rest
        | some (occupied h k v) ↦ if h == hash && equal_keys t k key then some p else rest
      ])
        ≡ some j
      → HoldsKey t key hash j
  unfolding number
  stop_at t key hash p j none rest at_slot later e = absurd (cc e)
  stop_at t key hash p j (some empty) rest at_slot later e = absurd (cc e)
  stop_at t key hash p j (some (tombstone h k v)) rest at_slot later e = later e
  stop_at t key hash p j (some (occupied h k v)) rest at_slot later e =
      elim (Bool-cases (h == hash)) [
        | inr no_match ↦ later (rw no_match at e)
        | inl match ↦ elim (Bool-cases (equal_keys t k key)) [
          | inr no_match ↦ later (rw (match, no_match) at e)
          | inl same ↦
              let stop : some p ≡ some j = rw (match, same) at e in
              let slot : p ≡ j = ap number stop in
              let hashes : h ≡ hash = ground arith in
              (k, v, sym (ap (get_elem? (slots_of t)) slot) ∙ at_slot ∙ rw hashes refl, same)
        ]
      ]

  pub find_loop-HoldsKey :
      (t : HashMap K V) (key : K) (hash index n i j : ℕ)
      → find_loop t key hash index n i ≡ some j
      → HoldsKey t key hash j
  unfolding find_loop
  find_loop-HoldsKey t key hash index zero i j e = absurd (cc e)
  find_loop-HoldsKey t key hash index (suc n) i j e =
      stop_at t key hash (probe t index i) j (get_elem? (slots_of t) (probe t index i))
        (find_loop t key hash index n (i + 1)) refl
        (find_loop-HoldsKey t key hash index n (i + 1) j) e

  -- The slot at which a lookup or a removal stops holds an entry with the hash of the key and a key
  -- that the comparison calls equal to it.
  pub find_slot-HoldsKey :
      (t : HashMap K V) (key : K) (j : ℕ)
      → find_slot t key ≡ some j
      → HoldsKey t key (t.hash_function key) j
  unfolding find_slot
  find_slot-HoldsKey t key j e = elim (Bool-cases (t.count == 0 || t.capacity == 0)) [
    | inl nothing ↦ absurd (cc (rw nothing at e))
    | inr some_entries ↦
        find_loop-HoldsKey t key (t.hash_function key) _ t.capacity 0 j (rw some_entries at e)
  ]
