-- ===== src/HashMap/Put.antt =====
-- What `justHashmapSet` does once there is room.
use just_library.Base.{
  get_elem?-lt, ℕ, ◌+◌, ◌<◌, ◌≡◌, refl, sym, ap, ◌∙◌, subst, Bool, true, none, some, length,
  get_elem?, set, arith, if◌then◌else◌, add_size, sub_size, bit_and,
}
use just_library.HashMap.{
  Slot, empty, occupied, tombstone, HashMap, slots_of, equal_keys, get, with_slot, is_tombstone,
  revalued, put_at, place_loop, Place, found, fresh, reuse, nowhere,
}
use just_library.HashMap.Slots.{total, total-set, total-le, live, dead, Reached, Placed}
use just_library.HashMap.Write.{Placed-set}
use just_library.HashMap.Find.{Sized, IsValid, size-lt}
use just_library.HashMap.Choose.{Chosen, over, into, again, IsAbsent, place_loop-Chosen}
use just_library.HashMap.Entries.{stored, stored-IsValid, get-stored}

module _ {K V : Type 0} where
  -- A store of `value` under `key`: it succeeds with a valid map that answers `value` for every key
  -- equal to `key`, and for every other key what it answered before.
  pub record Put (t : HashMap K V) (key : K) (value : V) (r : Bool × HashMap K V) : Type 0 where
    pub done : r.0 ≡ true
    pub valid : IsValid r.1
    pub reads : (q : K) → get r.1 q ≡ (if equal_keys t key q then some value else get t q)
    pub same_hash : r.1.hash_function ≡ t.hash_function
    pub same_compare : r.1.compare_function ≡ t.compare_function

module _ {K V : Type 0} (t : HashMap K V) (valid : IsValid t) (z : Sized t.capacity t.mask)
    (key : K) (value : V) where
  abbrev hash : ℕ
  hash = t.hash_function key

  -- A slot without an entry, which the probe reaches, for a key that is absent.
  pub Put-new :
      (p : ℕ) (s : Slot K V) (c d : ℕ)
      → get_elem? (slots_of t) p ≡ some s
      → live s ≡ 0
      → Reached (slots_of t) hash p
      → IsAbsent t key
      → c ≡ add_size t.count 1
      → d + dead s ≡ t.tombstone_count
      → Put t key value (true, stored t p (occupied hash key value) c d)
  Put-new p s c d at free reach gone counted interred =
      let l = get_elem?-lt (slots_of t) p s at in
      let bound = size-lt z in
      let more = total-set live (slots_of t) p s (occupied hash key value) at in
      let fewer = total-set dead (slots_of t) p s (occupied hash key value) at in
      let few = total-le (slots_of t) in
      let w : IsValid (stored t p (occupied hash key value) c d) =
        stored-IsValid t p (occupied hash key value) c d valid
          (Placed-set valid.keyed (slots_of t) valid.placed p l key value reach
            (λ j v has. absurd (gone j v has)))
          (omega (arith, more, free, counted, valid.counted, few, valid.width, bound))
          (omega (arith, fewer, interred, valid.interred)) in
      record {
        done = refl;
        valid = w;
        reads =
            get-stored t p hash key key value c d valid w l (valid.keyed.same_refl key)
              (λ h' k' v e.
                let f : some s ≡ some (occupied h' k' v) = sym at ∙ e in
                let taken : s ≡ occupied h' k' v = cc f in
                absurd (omega (arith, ap live taken, free)));
        same_hash = refl;
        same_compare = refl;
      }

  -- The tombstone counter of the branch that has met an empty slot.
  tombs :
      (p : ℕ) (s : Slot K V)
      → get_elem? (slots_of t) p ≡ some s
      → live s ≡ 0
      → (if is_tombstone (get_elem? (slots_of t) p)
            then sub_size t.tombstone_count 1
            else t.tombstone_count)
          + dead s
        ≡ t.tombstone_count
  tombs p empty at free = rw at (omega arith)
  tombs p (occupied h k v) at free = absurd (omega (arith, free))
  tombs p (tombstone h k v) at free =
      let bound = size-lt z in
      let few = total-le (slots_of t) in
      let some_dead = total-set dead (slots_of t) p (tombstone h k v) empty at in
      rw at (omega (arith, valid.interred, some_dead, few, valid.width, bound))

  put_at-Put :
      (place : Place) → Chosen t key place → Put t key value (put_at t key value hash place)
  unfolding put_at
  put_at-Put nowhere x = elim x [ ]
  put_at-Put (found p) (over k w at equal) =
      subst (λ o. Put t key value (true, with_slot t p (revalued o value))) (sym at)
        (record {
          done = refl;
          valid = kept;
          reads =
              get-stored t p hash k key value t.count t.tombstone_count valid kept l equal
                (λ h' k' v e.
                  let f : some (occupied hash k w) ≡ some (occupied h' k' v) = sym at ∙ e in
                  let keys : k ≡ k' = cc f in rw⁻¹ keys equal);
          same_hash = refl;
          same_compare = refl;
        })
    where
      l : p < length (slots_of t)
      l = get_elem?-lt (slots_of t) p (occupied hash k w) at

      own_hash : hash ≡ t.hash_function k
      own_hash = valid.placed.hashed p hash k w at

      live_kept :
          total live (set (slots_of t) p (occupied hash k value)) + 1 ≡ total live (slots_of t) + 1
      live_kept = total-set live (slots_of t) p (occupied hash k w) (occupied hash k value) at

      dead_kept :
          total dead (set (slots_of t) p (occupied hash k value)) + 0 ≡ total dead (slots_of t) + 0
      dead_kept = total-set dead (slots_of t) p (occupied hash k w) (occupied hash k value) at

      kept : IsValid (stored t p (occupied hash k value) t.count t.tombstone_count)
      kept =
          stored-IsValid t p (occupied hash k value) t.count t.tombstone_count valid
            (subst
              (λ x. Placed t.hash_function (equal_keys t) (set (slots_of t) p (occupied x k value)))
              (sym own_hash)
              (Placed-set valid.keyed (slots_of t) valid.placed p l k value
                (subst (λ x. Reached (slots_of t) x p) own_hash
                  (valid.placed.reached p hash k w at))
                (λ j v has. valid.placed.unique j p has.0 hash has.1 k v w has.2 at has.3)))
            (omega (arith, live_kept, valid.counted)) (omega (arith, dead_kept, valid.interred))
  put_at-Put (fresh p) (into s at free reach gone) =
      Put-new p s (add_size t.count 1) _ at free reach gone refl (tombs p s at free)
  put_at-Put (reuse p) (again h k v at reach gone) =
      Put-new p (tombstone h k v) (add_size t.count 1) (sub_size t.tombstone_count 1) at refl reach
        gone refl (omega (arith, rw at at (tombs p (tombstone h k v) at refl)))

  -- The end of `justHashmapSet` on a valid map with a slot to spare.
  pub place-Put :
      total live (slots_of t) < t.capacity
      → Put t key value
          (put_at t key value hash (place_loop t key hash (bit_and hash t.mask) t.capacity 0 none))
  place-Put room = put_at-Put _ (
      place_loop-Chosen t key valid z room t.capacity 0 none (omega arith)
        (λ e l. absurd (omega arith)) (λ e l. absurd (omega arith)) (λ e l. absurd (omega arith)))
