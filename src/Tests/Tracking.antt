-- ===== src/Tests/Tracking.antt =====
-- One allocation of 24 bytes under the tag "UNKNOWN".
use just_library.Base.{
  ℕ, zero, suc, ◌%◌, ◌≡◌, refl, sym, ap, subst, Option, none, some, [], ◌∷◌, arith, size_mod,
  get_elem?,
}
use just_library.Base.Sum.{total}
use just_library.Base.Text.{same_name}
use just_library.Tracker.{
  Header, TagEntry, Tracker, unknown, header_magic, footer_magic, tracked_malloc, set_limit,
  get_or_create_tag, malloc_in, find_tag, finish_malloc,
}
use just_library.Tracker.Names.{entry_of}
use just_library.Tracker.Accounts.{IsValid, share, lost, at_address}
use just_library.Tracker.Steps.{GivesNew}
use just_library.Tracker.Sound.{IsSound}
use just_library.Tracker.Runs.{Step, Reaches, Reaches-IsSound}

abbrev block : Header
block = record {
  address = 4096;
  requested_size = 24;
  aligned_payload_size = 24;
  tag = unknown;
  magic = header_magic;
  footer = footer_magic;
}

abbrev entry : TagEntry
entry = record { name = unknown; allocated_bytes = 24; allocation_limit = 1024; active_count = 1 }

abbrev tracker : Tracker
tracker = record { active_allocations = block ∷ []; memory_tags = entry ∷ [] }

tracker-IsValid : IsValid tracker
unfolding total share lost entry_of same_name
tracker-IsValid = record {
  some_tags = omega arith;
  booked = λ i e at. booked i e at;
  numbered = λ i e at. numbered i e at;
  kept = refl;
  apart = λ a. ground arith;
}
  where
    booked :
        (i : ℕ) (e : TagEntry)
        → get_elem? (entry ∷ []) i ≡ some e
        → e.allocated_bytes
          ≡ total (share (entry ∷ []) (λ h. h.requested_size) i) (block ∷ []) % size_mod
    booked zero e at = let f : entry ≡ e = cc at in ap (λ y. y.allocated_bytes) (sym f)
    booked (suc i) e at = absurd (cc at)

    numbered :
        (i : ℕ) (e : TagEntry)
        → get_elem? (entry ∷ []) i ≡ some e
        → e.active_count ≡ total (share (entry ∷ []) (λ h. 1) i) (block ∷ []) % size_mod
    numbered zero e at = let f : entry ≡ e = cc at in ap (λ y. y.active_count) (sym f)
    numbered (suc i) e at = absurd (cc at)

abbrev malloc : ℕ → ℕ → Option ℕ × ℕ
malloc bytes s = (some 8192, s)

abbrev realloc : ℕ → ℕ → ℕ → Option ℕ × ℕ
realloc a bytes s = (none, s)

abbrev free : ℕ → ℕ → ℕ
free a s = s

tracker-IsSound : IsSound tracker
unfolding total
tracker-IsSound = record { valid = tracker-IsValid; sizes = refl }

abbrev limited : Tracker
limited = set_limit tracker 4096 unknown

limited-active : limited.active_allocations ≡ block ∷ []
unfolding set_limit get_or_create_tag same_name
limited-active = refl

limited-GivesNew : GivesNew malloc realloc free limited 0
unfolding total
limited-GivesNew bytes a e =
    let f : 8192 ≡ a = cc e in
    subst (λ hs. total (at_address a) hs ≡ 0) (sym limited-active) (ground (arith, f))

-- A limit for "UNKNOWN", then 100 bytes with the tag "G".
abbrev grown : Tracker
grown = (tracked_malloc malloc realloc free limited 100 (71 ∷ []) 0).1

grows : Reaches malloc realloc free tracker 0 grown 0
unfolding tracked_malloc malloc_in get_or_create_tag same_name find_tag set_limit finish_malloc
grows =
    Reaches.after (Reaches.after Reaches.here (Step.limits 4096 unknown))
      (Step.mallocs 100 (71 ∷ []) (some 8256) grown 0 (omega arith) limited-GivesNew refl)

Reaches-IsSound_example : IsSound grown
Reaches-IsSound_example =
    Reaches-IsSound malloc realloc free tracker 0 grown 0 tracker-IsSound grows
