-- ===== src/Tests/Maps.antt =====
-- Maps from numbers to numbers on concrete inputs: sixteen slots.
use just_library.Base.{ℕ, ◌≡◌, refl, ap, false, none, some, [], ◌∷◌, arith}
use just_library.Base.Int.{sub_ℕ}
use just_library.Memory.{Memory, allocate}
use just_library.HashMap.{
  Slot, empty, occupied, tombstone, HashMap, get, insert, find_slot, find_loop, allocate_slots,
  zeroed, emptied,
}
use just_library.HashMap.Offsets.{layout}
use just_library.HashMap.Loss.{insert_loses}

-- a memory that grants nothing
abbrev exhausted : Memory (Slot ℕ ℕ)
exhausted = record {
  Store = ℕ;
  linear_allocate = λ e b s. (none, s);
  tracked_malloc = λ e b s. (none, s);
  tracked_realloc = λ old e b s. (none, s);
  tracked_free = λ block s. s;
  linear-length = λ e b s s' block h. absurd (cc (ap (λ r. r.0) h));
  malloc-length = λ e b s s' block h. absurd (cc (ap (λ r. r.0) h));
  realloc-length = λ old e b s s' block h. absurd (cc (ap (λ r. r.0) h));
  realloc-keeps = λ old e b s s' block i h l k. absurd (cc (ap (λ r. r.0) h));
}

-- key and hash are the number; 17 has been pushed on from its slot by 1
abbrev table : HashMap ℕ ℕ
table = record {
  slots = some (
      empty
      ∷ occupied 1 1 10
      ∷ occupied 17 17 20
      ∷ tombstone 3 3 30
      ∷ empty
      ∷ empty
      ∷ empty
      ∷ empty
      ∷ empty
      ∷ empty
      ∷ empty
      ∷ empty
      ∷ empty
      ∷ empty
      ∷ empty
      ∷ empty
      ∷ []);
  capacity = 16;
  mask = 15;
  count = 2;
  tombstone_count = 1;
  layout_of = layout 8 8;
  hash_function = λ k. k;
  compare_function = sub_ℕ;
  linear = false;
}

found_slot : find_slot table 17 ≡ some 2
unfolding find_slot find_loop
found_slot = refl

-- twelve entries: the table has reached its load
abbrev loaded : HashMap ℕ ℕ
loaded = record table {
  slots = some (
      occupied 0 0 0
      ∷ occupied 1 1 1
      ∷ occupied 2 2 2
      ∷ occupied 3 3 3
      ∷ occupied 4 4 4
      ∷ occupied 5 5 5
      ∷ occupied 6 6 6
      ∷ occupied 7 7 7
      ∷ occupied 8 8 8
      ∷ occupied 9 9 9
      ∷ occupied 10 10 10
      ∷ occupied 11 11 11
      ∷ empty
      ∷ empty
      ∷ empty
      ∷ empty
      ∷ []);
  count = 12;
  tombstone_count = 0;
}

no_memory : (allocate_slots exhausted (emptied loaded 32) 32 0).0 ≡ none
unfolding allocate_slots zeroed allocate
no_memory = refl

insert_loses_example :
    ((insert exhausted loaded 40 1 0).0 ≡ false)
    × ((other : ℕ) → get (insert exhausted loaded 40 1 0).1 other ≡ none)
insert_loses_example = insert_loses exhausted loaded 40 1 0 (omega arith) refl no_memory
