-- ===== src/Tests/Tables.antt =====
-- A valid map on four slots: stored to, removed from and rehashed.
use just_library.Base.{
  ℕ, zero, suc, ◌/◌, ◌<◌, ◌≡◌, ◌⊎◌, refl, sym, ap, ◌∙◌, true, false, Option, none, some, inl, inr,
  List, [], ◌∷◌, arith, get_elem?, length, replicate, length-replicate,
}
use just_library.Base.Int.{sub_ℕ}
use just_library.Memory.{Memory}
use just_library.HashMap.{
  Slot, empty, occupied, tombstone, HashMap, slots_of, equal_keys, insert, remove, resize, emptied,
  allocate_slots,
}
use just_library.HashMap.Offsets.{layout}
use just_library.HashMap.Slots.{spot, Filled, total}
use just_library.HashMap.Find.{IsValid}
use just_library.HashMap.Remove.{Removed, remove-Removed}
use just_library.HashMap.Rehash.{Resized, resize-Resized}
use just_library.HashMap.Refine.{Inserted, insert-Inserted}

-- a block of slots that hold leftovers
abbrev leftovers : ℕ → List (Slot ℕ ℕ)
leftovers n = replicate n (tombstone 9 9 9)

granted-length :
    {S : Type 0} (n : ℕ) (s s' : S) (block : List (Slot ℕ ℕ))
    → ◌≡◌ {A = Option (List (Slot ℕ ℕ)) × S} (some (leftovers n), s) (some block, s')
    → length block ≡ n
granted-length n s s' block e =
    let f : some (leftovers n) ≡ some block = ap (λ r. r.0) e in
    let same : leftovers n ≡ block = cc f in
    ap length (sym same) ∙ length-replicate n (tombstone 9 9 9)

-- a memory that grants every block but a reallocation
abbrev generous : Memory (Slot ℕ ℕ)
generous = record {
  Store = ℕ;
  linear_allocate = λ e b s. (some (leftovers (b / e)), s);
  tracked_malloc = λ e b s. (some (leftovers (b / e)), s);
  tracked_realloc = λ old e b s. (none, s);
  tracked_free = λ block s. s;
  linear-length = λ e b s s' block h. granted-length (b / e) s s' block h;
  malloc-length = λ e b s s' block h. granted-length (b / e) s s' block h;
  realloc-length = λ old e b s s' block h. absurd (cc (ap (λ r. r.0) h));
  realloc-keeps = λ old e b s s' block i h l k. absurd (cc (ap (λ r. r.0) h));
}

-- 5 has been pushed on from its slot by 1
abbrev four_slots : HashMap ℕ ℕ
four_slots = record {
  slots = some (empty ∷ occupied 1 1 10 ∷ occupied 5 5 20 ∷ tombstone 3 3 30 ∷ []);
  capacity = 4;
  mask = 3;
  count = 2;
  tombstone_count = 1;
  layout_of = layout 8 8;
  hash_function = λ k. k;
  compare_function = sub_ℕ;
  linear = false;
}

entries :
    (j h k v : ℕ)
    → get_elem? (slots_of four_slots) j ≡ some (occupied h k v)
    → ((j ≡ 1) × (h ≡ 1) × (k ≡ 1)) ⊎ ((j ≡ 2) × (h ≡ 5) × (k ≡ 5))
entries zero h k v e = let f : some empty ≡ some (occupied h k v) = e in absurd (cc f)
entries (suc zero) h k v e =
    let f : some (occupied 1 1 10) ≡ some (occupied h k v) = e in inl (refl, cc f, cc f)
entries (suc (suc zero)) h k v e =
    let f : some (occupied 5 5 20) ≡ some (occupied h k v) = e in inr (refl, cc f, cc f)
entries (suc (suc (suc zero))) h k v e =
    let f : some (tombstone 3 3 30) ≡ some (occupied h k v) = e in absurd (cc f)
entries (suc (suc (suc (suc j)))) h k v e = absurd (cc e)

same_key : (a b : ℕ) → equal_keys four_slots a b ≡ true → a ≡ b
same_key a b e = ground arith

four_slots-IsValid : IsValid four_slots
unfolding total
four_slots-IsValid = record {
  keyed = record {
    same_refl = λ a. ground arith;
    same_left = λ a b c e. ap (λ x. equal_keys four_slots x c) (same_key a b e);
    hash_same = λ a b e. same_key a b e;
  };
  width = refl;
  sized = inr (record { exponent = 2; small = omega arith; power = refl; masked = refl });
  counted = refl;
  interred = refl;
  placed = record {
    hashed = λ j h k v e. elim (entries j h k v e) [
      | inl x ↦ omega (arith, x)
      | inr x ↦ omega (arith, x)
    ];
    reached = λ j h k v e. elim (entries j h k v e) [
      | inl (at, hash, key) ↦ rw (at, hash) (0, omega arith, refl, λ i l. absurd (omega arith))
      | inr (at, hash, key) ↦ rw (at, hash) (1, omega arith, refl, λ i l. before i l)
    ];
    unique = λ i j h h' k k' v v' e e' s.
        let same = same_key k k' s in
        elim (entries i h k v e) [
          | inl x ↦ elim (entries j h' k' v' e') [
            | inl y ↦ omega (arith, x, y)
            | inr y ↦ omega (arith, x, y, same)
          ]
          | inr x ↦ elim (entries j h' k' v' e') [
            | inl y ↦ omega (arith, x, y, same)
            | inr y ↦ omega (arith, x, y)
          ]
        ];
  };
}
  where
    before : (i : ℕ) → i < 1 → Filled (get_elem? (slots_of four_slots) (spot 4 5 i))
    before zero l = tt
    before (suc i) l = absurd (omega arith)

remove-Removed_example : Removed four_slots four_slots-IsValid 5 (remove four_slots 5)
remove-Removed_example = remove-Removed four_slots four_slots-IsValid 5

insert-Inserted_example :
    Inserted four_slots 9 90
      (allocate_slots generous (emptied four_slots 4) 4 0).0
      (insert generous four_slots 9 90 0)
unfolding layout
insert-Inserted_example =
    insert-Inserted generous four_slots 9 90 0 four_slots-IsValid (omega arith) (omega arith)
      (omega arith)

resize-Resized_example :
    Resized four_slots 8
      (allocate_slots generous (emptied four_slots 8) 8 0).0
      (resize generous four_slots 8 0)
unfolding total layout
resize-Resized_example =
    resize-Resized generous four_slots four_slots-IsValid 8
      (record { exponent = 3; small = omega arith; power = refl; masked = refl }) (omega arith) 0
      (omega arith) (omega arith)
