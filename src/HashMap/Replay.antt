-- ===== src/HashMap/Replay.antt =====
-- The `for` loop of `hashmapResize` over all the old slots.
use just_library.Base.{
  ℕ, zero, suc, ◌+◌, ◌<◌, ◌≡◌, refl, sym, ap, ◌∙◌, subst, Bool, true, false, Option, none, some,
  List, [], ◌∷◌, get_elem?, arith, inl, inr, if◌then◌else◌, add_size, Bool-cases, Option-cases,
}
use just_library.HashMap.{
  Slot, empty, occupied, tombstone, HashMap, slots_of, equal_keys, get, reinsert, reinsert_all,
}
use just_library.HashMap.Slots.{total, total-le, live, IsKeyed, same_sym, same_trans}
use just_library.HashMap.Find.{Sized, IsValid, size-lt}
use just_library.HashMap.Put.{Put}
use just_library.HashMap.Entries.{Entry, get-some, get-Entry}
use just_library.HashMap.Reinsert.{reinsert-Put}

module _ {K V : Type 0} where
  -- the value of the first entry of the key, read in the order of the slots, and else `o`
  unfoldable pub answer : (K → K → Bool) → List (Slot K V) → K → Option V → Option V
  answer same [] q o = o
  answer same (occupied h k v ∷ ss) q o =
      let rest = answer same ss q o in if same k q then some v else rest
  answer same (empty ∷ ss) q o = answer same ss q o
  answer same (tombstone h k v ∷ ss) q o = answer same ss q o

  pub answer-missing :
      (same : K → K → Bool) (ss : List (Slot K V)) (q : K) (o : Option V)
      → ((j h : ℕ) (k : K) (v : V) → get_elem? ss j ≡ some (occupied h k v) → same k q ≡ false)
      → answer same ss q o ≡ o
  unfolding answer
  answer-missing same [] q o no_entry = refl
  answer-missing same (occupied h k v ∷ ss) q o no_entry =
      rw (no_entry zero h k v refl) (answer-missing same ss q o (λ j. no_entry (suc j)))
  answer-missing same (empty ∷ ss) q o no_entry = answer-missing same ss q o (λ j. no_entry (suc j))
  answer-missing same (tombstone h k v ∷ ss) q o no_entry =
      answer-missing same ss q o (λ j. no_entry (suc j))

  pub answer-found :
      (same : K → K → Bool) (ss : List (Slot K V)) (q : K) (o : Option V) (j h : ℕ) (k : K) (v : V)
      → get_elem? ss j ≡ some (occupied h k v)
      → same k q ≡ true
      → ((i h' : ℕ) (k' : K) (v' : V)
          → get_elem? ss i ≡ some (occupied h' k' v')
          → same k' q ≡ true
          → i ≡ j)
      → answer same ss q o ≡ some v
  unfolding answer
  answer-found same [] q o j h k v at s only = absurd (cc at)
  answer-found same (x ∷ ss) q o zero h k v at s only =
      let f : some x ≡ some (occupied h k v) = at in
      let e : x ≡ occupied h k v = cc f in rw (e, s) refl
  answer-found same (occupied h' k' v' ∷ ss) q o (suc j) h k v at s only =
      elim (Bool-cases (same k' q)) [
        | inl mine ↦ absurd (omega (arith, only zero h' k' v' refl mine))
        | inr other ↦ rw other (
            answer-found same ss q o j h k v at s
              (λ i h k v e s. omega (arith, only (suc i) h k v e s)))
      ]
  answer-found same (empty ∷ ss) q o (suc j) h k v at s only =
      answer-found same ss q o j h k v at s (λ i h k v e s. omega (arith, only (suc i) h k v e s))
  answer-found same (tombstone a b c ∷ ss) q o (suc j) h k v at s only =
      answer-found same ss q o j h k v at s (λ i h k v e s. omega (arith, only (suc i) h k v e s))

  -- The slots of a valid map, read in order, answer what its lookup answers.
  pub answer-get :
      (t : HashMap K V) (q : K) → IsValid t → answer (equal_keys t) (slots_of t) q none ≡ get t q
  answer-get t q valid = elim (Option-cases (get t q)) [
    | inr (v, e) ↦
        let (j, (h, k, at, s)) = get-Entry t q v e in
        answer-found (equal_keys t) (slots_of t) q none j h k v at s (λ i h' k' v' at' s'.
          valid.placed.unique i j h' h k' k v' v at' at
            (same_trans valid.keyed k' q k s' (same_sym valid.keyed k q s)))
        ∙ sym e
    | inl e ↦
        answer-missing (equal_keys t) (slots_of t) q none (λ j h k v at.
          elim (Bool-cases (equal_keys t k q)) [
            | inr other ↦ other
            | inl mine ↦
                let f : none ≡ some v = sym e ∙ get-some t q v valid (j, (h, k, at, mine)) in
                absurd (cc f)
          ])
        ∙ sym e
  ]

  -- Old slots that can go into the table: their entries have the hashes of their keys, their keys
  -- differ, and none of them is in the table.
  pub record Fresh (t : HashMap K V) (ss : List (Slot K V)) : Type 0 where
    pub hashed :
        (j h : ℕ) (k : K) (v : V) → get_elem? ss j ≡ some (occupied h k v) → h ≡ t.hash_function k
    pub apart :
        (i j h h' : ℕ) (k k' : K) (v v' : V)
        → get_elem? ss i ≡ some (occupied h k v)
        → get_elem? ss j ≡ some (occupied h' k' v')
        → equal_keys t k k' ≡ true
        → i ≡ j
    pub unseen : (j h : ℕ) (k : K) (v : V) → get_elem? ss j ≡ some (occupied h k v) → get t k ≡ none

  -- What the loop makes of a table and the old slots.
  pub record Replayed (t : HashMap K V) (ss : List (Slot K V)) (t' : HashMap K V) : Type 0 where
    pub valid : IsValid t'
    pub reads : (q : K) → get t' q ≡ answer (equal_keys t) ss q (get t q)
    pub counted : t'.count ≡ t.count + total live ss
    pub clean : t'.tombstone_count ≡ t.tombstone_count
    pub same_capacity : t'.capacity ≡ t.capacity
    pub same_mask : t'.mask ≡ t.mask
    pub same_hash : t'.hash_function ≡ t.hash_function
    pub same_compare : t'.compare_function ≡ t.compare_function

  tail-Fresh :
      (t : HashMap K V) (s : Slot K V) (ss : List (Slot K V)) → Fresh t (s ∷ ss) → Fresh t ss
  tail-Fresh t s ss f = record {
    hashed = λ j. f.hashed (suc j);
    apart =
        λ i j h h' k k' v v' e e' s. omega (arith, f.apart (suc i) (suc j) h h' k k' v v' e e' s);
    unseen = λ j. f.unseen (suc j);
  }

  gone :
      (t : HashMap K V) (k : K) (v : V) {h : ℕ} (ss : List (Slot K V))
      → Fresh t (occupied h k v ∷ ss)
      → IsValid t
      → (w : V) → Entry t k w
      → ⊥
  gone t k v {h} ss fresh valid w entry =
      let f : none ≡ some w = sym (fresh.unseen zero h k v refl) ∙ get-some t k w valid entry in
      cc f

  -- the later entries have other keys than the first
  others :
      (t : HashMap K V) (h : ℕ) (k : K) (v : V) (ss : List (Slot K V))
      → Fresh t (occupied h k v ∷ ss)
      → (j h' : ℕ) (k' : K) (v' : V) → get_elem? ss j ≡ some (occupied h' k' v')
      → equal_keys t k k' ≡ false
  others t h k v ss fresh j h' k' v' at = elim (Bool-cases (equal_keys t k k')) [
    | inl e ↦ absurd (omega (arith, fresh.apart zero (suc j) h h' k k' v v' refl at e))
    | inr e ↦ e
  ]

  tail_after :
      (t : HashMap K V) (h : ℕ) (k : K) (v : V) (ss : List (Slot K V))
      → Fresh t (occupied h k v ∷ ss)
      → ((q : K)
          → get (reinsert t (occupied h k v)) q ≡ (if equal_keys t k q then some v else get t q))
      → Fresh (reinsert t (occupied h k v)) ss
  unfolding reinsert
  tail_after t h k v ss fresh reads = record {
    hashed = λ j. fresh.hashed (suc j);
    apart = λ i j h h' k k' v v' e e' s.
        omega (arith, fresh.apart (suc i) (suc j) h h' k k' v v' e e' s);
    unseen = λ j h' k' v' at.
        reads k'
        ∙ ap (λ b. if b then some v else get t k') (others t h k v ss fresh j h' k' v' at)
        ∙ fresh.unseen (suc j) h' k' v' at;
  }

  first :
      (t : HashMap K V) (h : ℕ) (k : K) (v : V) (ss : List (Slot K V)) (q : K)
      → Fresh t (occupied h k v ∷ ss)
      → IsKeyed t.hash_function (equal_keys t)
      → answer (equal_keys t) ss q (if equal_keys t k q then some v else get t q)
        ≡ answer (equal_keys t) (occupied h k v ∷ ss) q (get t q)
  unfolding answer
  first t h k v ss q fresh keyed = elim (Bool-cases (equal_keys t k q)) [
    | inr e ↦ rw e refl
    | inl e ↦ rw e (
        answer-missing (equal_keys t) ss q (some v) (λ j h' k' v' at.
          elim (Bool-cases (equal_keys t k' q)) [
            | inr f ↦ f
            | inl f ↦
                let both = same_trans keyed k q k' e (same_sym keyed k' q f) in
                let clash : true ≡ false = sym both ∙ others t h k v ss fresh j h' k' v' at in
                absurd (cc clash)
          ]))
  ]

  pub reinsert_all-Replayed :
      (t : HashMap K V) (ss : List (Slot K V))
      → IsValid t
      → Sized t.capacity t.mask
      → t.tombstone_count ≡ 0
      → total live (slots_of t) + total live ss < t.capacity
      → Fresh t ss
      → Replayed t ss (reinsert_all t ss)
  unfolding reinsert_all answer total reinsert
  reinsert_all-Replayed t [] valid z clean room fresh = record {
    valid = valid;
    reads = λ q. refl;
    counted = omega arith;
    clean = refl;
    same_capacity = refl;
    same_mask = refl;
    same_hash = refl;
    same_compare = refl;
  }
  reinsert_all-Replayed t (empty ∷ ss) valid z clean room fresh =
      let r =
        reinsert_all-Replayed t ss valid z clean (omega arith) (tail-Fresh t empty ss fresh) in
      record {
        valid = r.valid;
        reads = r.reads;
        counted = omega (arith, r.counted);
        clean = r.clean;
        same_capacity = r.same_capacity;
        same_mask = r.same_mask;
        same_hash = r.same_hash;
        same_compare = r.same_compare;
      }
  reinsert_all-Replayed t (tombstone h k v ∷ ss) valid z clean room fresh =
      let r = reinsert_all-Replayed t ss valid z clean (omega arith) (tail-Fresh t _ ss fresh) in
      record {
        valid = r.valid;
        reads = r.reads;
        counted = omega (arith, r.counted);
        clean = r.clean;
        same_capacity = r.same_capacity;
        same_mask = r.same_mask;
        same_hash = r.same_hash;
        same_compare = r.same_compare;
      }
  reinsert_all-Replayed t (occupied h k v ∷ ss) valid z clean room fresh =
      let hashes : h ≡ t.hash_function k = fresh.hashed zero h k v refl in
      let small = size-lt z in
      let few = total-le (slots_of t) in
      let one =
        subst (λ x. Put t k v (true, reinsert t (occupied x k v))) (sym hashes)
          (reinsert-Put t valid z k (omega arith) v (gone t k v ss fresh valid) clean) in
      let next : t.count + 1 ≡ add_size t.count 1 =
        omega (arith, valid.counted, few, valid.width) in
      let r =
        reinsert_all-Replayed (reinsert t (occupied h k v)) ss one.valid z clean
          (omega (arith, one.valid.counted, next, valid.counted))
          (tail_after t h k v ss fresh one.reads) in
      record {
        valid = r.valid;
        reads = λ q.
            r.reads q
            ∙ ap (answer (equal_keys t) ss q) (one.reads q)
            ∙ first t h k v ss q fresh valid.keyed;
        counted = omega (arith, r.counted, next);
        clean = r.clean;
        same_capacity = r.same_capacity;
        same_mask = r.same_mask;
        same_hash = r.same_hash;
        same_compare = r.same_compare;
      }
