-- ===== src/HashMap/Rehash.antt =====
-- `hashmapResize` on a valid map.
use native.Mathlib.Nat.{mul-div_cancel}
use just_library.Base.{
  ℕ, zero, suc, ◌*◌, ◌<◌, ◌≡◌, refl, sym, ap, ◌∙◌, subst, Bool, true, false, Option, none, some,
  List, [], ◌∷◌, length, get_elem?, take, map, arith, inl, inr, Bool-cases, ltb, mul_size-eq,
  if◌then◌else◌, size_mod, sub_size,
}
use just_library.Memory.{Memory, allocate, allocate-length}
use just_library.HashMap.{
  Slot, empty, occupied, HashMap, slots_of, equal_keys, get, reinsert_all, emptied, zeroed,
  allocate_slots, finish_resize, resize,
}
use just_library.HashMap.Slots.{total, live, dead}
use just_library.HashMap.Find.{Sized, IsValid}
use just_library.HashMap.Entries.{get-none}
use just_library.HashMap.Replay.{answer, answer-get, reinsert_all-Replayed}

module _ {K V : Type 0} where
  abbrev cleared : List (Slot K V) → List (Slot K V)
  cleared = map (λ slot. empty)

  take_all : (xs : List (Slot K V)) (n : ℕ) → length xs ≡ n → take n xs ≡ xs
  take_all [] zero e = refl
  take_all [] (suc n) e = refl
  take_all (x ∷ xs) zero e = absurd (omega arith)
  take_all (x ∷ xs) (suc n) e = ap (λ ys. x ∷ ys) (take_all xs n (omega arith))

  length-cleared : (ss : List (Slot K V)) → length (cleared ss) ≡ length ss
  length-cleared [] = refl
  length-cleared (s ∷ ss) = omega (arith, length-cleared ss)

  total-cleared : (f : Slot K V → ℕ) (ss : List (Slot K V)) → f empty ≡ 0 → total f (cleared ss) ≡ 0
  unfolding total
  total-cleared f [] e = refl
  total-cleared f (s ∷ ss) e = omega (arith, total-cleared f ss e)

  cleared-empty :
      (ss : List (Slot K V)) (j h : ℕ) (k : K) (v : V)
      → get_elem? (cleared ss) j ≡ some (occupied h k v)
      → ⊥
  cleared-empty [] j h k v e = absurd (cc e)
  cleared-empty (s ∷ ss) zero h k v e =
      let f : some empty ≡ some (occupied h k v) = e in absurd (cc f)
  cleared-empty (s ∷ ss) (suc j) h k v e = cleared-empty ss j h k v e

  -- What a rehash leaves: a valid map of the new capacity with the same entries and no tombstone.
  pub record Rehashed (t : HashMap K V) (c : ℕ) (t' : HashMap K V) : Type 0 where
    pub valid : IsValid t'
    pub reads : (q : K) → get t' q ≡ get t q
    pub counted : t'.count ≡ t.count
    pub clean : t'.tombstone_count ≡ 0
    pub same_capacity : t'.capacity ≡ c
    pub same_mask : t'.mask ≡ sub_size c 1
    pub same_hash : t'.hash_function ≡ t.hash_function
    pub same_compare : t'.compare_function ≡ t.compare_function

  -- the map at the start of the `for` loop, on a new block
  abbrev renewed : HashMap K V → ℕ → List (Slot K V) → HashMap K V
  renewed t c ss = record (emptied t c) { slots = some (cleared ss) }

  module _ (t : HashMap K V) (valid : IsValid t) (c : ℕ) (z : Sized c (sub_size c 1)) where
    renewed-IsValid : (ss : List (Slot K V)) → length ss ≡ c → IsValid (renewed t c ss)
    renewed-IsValid ss e = record {
      keyed = valid.keyed;
      width = length-cleared ss ∙ e;
      sized = inr z;
      counted = sym (total-cleared live ss refl);
      interred = sym (total-cleared dead ss refl);
      placed = record {
        hashed = λ j h k v at. absurd (cleared-empty ss j h k v at);
        reached = λ j h k v at. absurd (cleared-empty ss j h k v at);
        unique = λ i j h h' k k' v v' at at' s. absurd (cleared-empty ss i h k v at);
      };
    }

    get-renewed : (ss : List (Slot K V)) (q : K) → get (renewed t c ss) q ≡ none
    get-renewed ss q =
        get-none (renewed t c ss) q
          (λ v entry. let (j, (h, k, at, s)) = entry in cleared-empty ss j h k v at)

    replayed :
        (ss : List (Slot K V))
        → length ss ≡ c
        → total live (slots_of t) < c
        → Rehashed t c (reinsert_all (renewed t c ss) (slots_of t))
    replayed ss e room =
        let r =
          reinsert_all-Replayed (renewed t c ss) (slots_of t) (renewed-IsValid ss e) z refl
            (omega (arith, total-cleared live ss refl))
            (record {
              hashed = valid.placed.hashed;
              apart = valid.placed.unique;
              unseen = λ j h k v at. get-renewed ss k;
            }) in
        record {
          valid = r.valid;
          reads = λ q.
              r.reads q
              ∙ ap (answer (equal_keys t) (slots_of t) q) (get-renewed ss q)
              ∙ answer-get t q valid;
          counted = omega (arith, r.counted, valid.counted);
          clean = r.clean;
          same_capacity = r.same_capacity;
          same_mask = r.same_mask;
          same_hash = r.same_hash;
          same_compare = r.same_compare;
        }

  -- How a rehash to capacity `c` ends; a refused one leaves the map without entries.
  pub data Resized (t : HashMap K V) (c : ℕ) {S : Type 0} (asked : Option (List (Slot K V)))
      : Bool × HashMap K V × S → Type 0 where
    granted : {t' : HashMap K V} {s : S} → Rehashed t c t' → Resized t c asked (true, t', s)
    refused : {s : S} → asked ≡ none → Resized t c asked (false, emptied t c, s)

  module _ (m : Memory (Slot K V)) (t : HashMap K V) (valid : IsValid t) (c : ℕ)
      (z : Sized c (sub_size c 1)) (room : total live (slots_of t) < c) where
    open m use {Store, tracked_free}

    abbrev listed : Option (List (Slot K V)) → List (Slot K V)
    listed o = elim o [ none ↦ [] | some ss ↦ ss ]

    -- what is done with a new block, by the old slots
    abbrev carried : List (Slot K V) → Store → Option (List (Slot K V)) → Bool × HashMap K V × Store
    carried block s o = elim o [
      | none ↦ (true, renewed t c block, s)
      | some old ↦
          if ltb 0 t.capacity
          then (
            true,
            reinsert_all (renewed t c block) (take t.capacity old),
            (if t.linear then s else tracked_free old s),
          )
          else (true, renewed t c block, s)
    ]

    -- the re-insertion over the old slots, however they are written
    replayed_over :
        (block xs : List (Slot K V))
        → length block ≡ c
        → slots_of t ≡ xs
        → Rehashed t c (reinsert_all (renewed t c block) xs)
    replayed_over block xs e listed_as =
        subst (λ ys. Rehashed t c (reinsert_all (renewed t c block) ys)) listed_as
          (replayed t valid c z block e room)

    carried-Resized :
        (block : List (Slot K V)) (s : Store) (asked o : Option (List (Slot K V)))
        → length block ≡ c
        → t.slots ≡ o
        → Resized t c asked (carried block s o)
    unfolding reinsert_all
    carried-Resized block s asked none e at = granted (replayed_over block [] e (ap listed at))
    carried-Resized block s asked (some old) e at =
        let width : length old ≡ t.capacity = ap length (sym (ap listed at)) ∙ valid.width in
        elim (Bool-cases (ltb 0 t.capacity)) [
          | inl b ↦ rw b (
              granted (
                replayed_over block (take t.capacity old) e
                  (ap listed at ∙ sym (take_all old t.capacity width))))
          | inr b ↦
              let none_left : take 0 old ≡ old = take_all old 0 (ground arith) in
              rw b (granted (replayed_over block [] e (ap listed at ∙ sym none_left)))
        ]

    finished :
        (res : Option (List (Slot K V)) × Store)
        → ((block : List (Slot K V)) → res ≡ (some block, res.1) → length block ≡ c)
        → Resized t c (zeroed m res).0 (finish_resize m (emptied t c) t.capacity (zeroed m res))
    unfolding zeroed finish_resize
    finished (none, s) width = refused refl
    finished (some block, s) width =
        carried-Resized block s (some (cleared block)) t.slots (width block refl) refl

    -- `hashmapResize` of a valid map to a capacity that is a power of two below 2 ^ 60, that is larger
    -- than the number of entries, and whose slots' bytes fit `size_t`: it is granted a valid map with
    -- the same entries and no tombstone, or it is refused the memory and leaves a map without entries.
    pub resize-Resized :
        (s : Store)
        → 0 < t.layout_of.slot_stride
        → c * t.layout_of.slot_stride < size_mod
        → Resized t c (allocate_slots m (emptied t c) c s).0 (resize m t c s)
    unfolding resize allocate_slots
    resize-Resized s pos fits =
        let bytes = mul_size-eq c t.layout_of.slot_stride fits in
        rw bytes (
          finished (allocate m t.linear t.layout_of.slot_stride (c * t.layout_of.slot_stride) s)
            (λ block got.
              allocate-length m t.linear t.layout_of.slot_stride (c * t.layout_of.slot_stride) s _
                block got
              ∙ mul-div_cancel c pos))
