-- ===== src/HashMap/Reinsert.antt =====
-- The `for` loop of `hashmapResize`, which puts the entries of the old slots into the new ones.
use native.Mathlib.Nat.{mod-lt}
use just_library.Base.{
  ◌%◌, ℕ, zero, suc, ◌+◌, ◌<◌, ◌≡◌, refl, sym, ap, ◌∙◌, subst, true, Option, none, some, length,
  arith, if◌then◌else◌, add_size, bit_and, get_elem?-some,
}
use just_library.HashMap.{
  Slot, empty, occupied, tombstone, HashMap, slots_of, is_occupied, free_slot, reinsert,
}
use just_library.HashMap.Slots.{total, total-set, live, dead, spot, Taken, Taken-Filled, Reached}
use just_library.HashMap.Find.{Sized, IsValid, size-pos, spot-zero, spot-suc}
use just_library.HashMap.Choose.{at_slot, below_suc, not_full, Reached-at}
use just_library.HashMap.Put.{Put, Put-new}
use just_library.HashMap.Entries.{Entry}

module _ {K V : Type 0} where
  module _ (t : HashMap K V) (valid : IsValid t) (z : Sized t.capacity t.mask) (key : K)
      (room : total live (slots_of t) < t.capacity) where
    abbrev hash : ℕ
    hash = t.hash_function key

    -- A slot without an entry that the probe reaches.
    abbrev Open : ℕ → Type 0
    Open p =
        (s : Slot K V) × (at_slot t key p ≡ some s) × (live s ≡ 0) × Reached (slots_of t) hash p

    -- one step of the loop, from the slot that it reads
    opened_at :
        (i p rest : ℕ) (o : Option (Slot K V))
        → p ≡ spot t.capacity hash i
        → at_slot t key p ≡ o
        → i < t.capacity
        → ((e : ℕ) → e < i → Taken (at_slot t key (spot t.capacity hash e)))
        → (((e : ℕ) → e < i + 1 → Taken (at_slot t key (spot t.capacity hash e))) → Open rest)
        → Open (if is_occupied o then rest else p)
    opened_at i p rest (some (occupied h k v)) here at l taken next =
        next (below_suc i taken (subst Taken (sym at ∙ ap (at_slot t key) here) tt))
    opened_at i p rest (some empty) here at l taken next = (
      empty,
      at,
      refl,
      subst (Reached (slots_of t) hash) (sym here)
          (Reached-at t key valid z room i l (λ e le. Taken-Filled _ (taken e le))),
    )
    opened_at i p rest (some (tombstone h k v)) here at l taken next = (
      tombstone h k v,
      at,
      refl,
      subst (Reached (slots_of t) hash) (sym here)
          (Reached-at t key valid z room i l (λ e le. Taken-Filled _ (taken e le))),
    )
    opened_at i p rest none here at l taken next =
        let inside : p < length (slots_of t) =
          omega (arith, here, valid.width, mod-lt (hash % t.capacity + i) (size-pos z)) in
        let (s, got) = get_elem?-some (slots_of t) p inside in
        let f : none ≡ some s = sym at ∙ got in absurd (cc f)

    opened :
        (m i p : ℕ)
        → m + i ≡ t.capacity
        → p ≡ spot t.capacity hash i
        → ((e : ℕ) → e < i → Taken (at_slot t key (spot t.capacity hash e)))
        → Open (free_slot t m p)
    unfolding free_slot
    opened zero i p sum here taken =
        absurd (not_full t key valid z room (λ e l. taken e (omega arith)))
    opened (suc m) i p sum here taken =
        opened_at i p (free_slot t m (bit_and (add_size p 1) t.mask)) (at_slot t key p) here refl
          (omega arith) taken
          (λ more.
            opened m (i + 1) _ (omega arith)
              (ap (λ x. bit_and (add_size x 1) t.mask) here ∙ spot-suc z hash i) more)

    -- The loop of a re-insertion ends at a slot without an entry that the probe reaches.
    pub free_slot-Open : Open (free_slot t t.capacity (bit_and hash t.mask))
    free_slot-Open =
        opened t.capacity 0 _ (omega arith) (spot-zero z hash) (λ e l. absurd (omega arith))

    -- An entry of the old table whose key is not in the new one.
    pub reinsert-Put :
        (value : V)
        → ((v : V) → Entry t key v → ⊥)
        → t.tombstone_count ≡ 0
        → Put t key value (true, reinsert t (occupied hash key value))
    unfolding reinsert
    reinsert-Put value gone clean =
        let (s, at, free, reach) = free_slot-Open in
        let no_dead : dead s ≡ 0 =
          (let fewer = total-set dead (slots_of t) _ s empty at in
            omega (arith, fewer, valid.interred, clean)) in
        Put-new t valid z key value (free_slot t t.capacity (bit_and hash t.mask)) s
          (add_size t.count 1) t.tombstone_count at free reach (λ j v has. gone v (j, has)) refl
          (omega (arith, no_dead))
