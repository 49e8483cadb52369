-- ===== src/Tracker.antt =====
-- include/justUtils/memory/tracker.h and src/memory/tracker.c: the bookkeeping of a DEBUG build.
-- The list of active allocations is a list of headers, newest first; a header carries its address,
-- its magic number and the canary behind its payload. A tag is the list of its characters: a pointer
-- to a name and the name are told apart by nothing that the code does with them. File, function and
-- line, the reports and the logging are left out; `abort` is a result of its own.
pub mod Names
pub mod Accounts
pub mod Steps
pub mod Relink
pub mod Sound
pub mod Runs
use just_library.Base.{
  ℕ, zero, suc, ◌+◌, ◌-◌, ◌^◌, Bool, true, false, not, ◌&&◌, ◌||◌, Option, none, some, List, [],
  ◌∷◌, ◌++◌, length, take, get_elem?, set, bit_and, add_size, sub_size, mul_size, size_max,
  if◌then◌else◌, ◌==◌, ltb,
}
use just_library.Base.Text.{Name, same_name}

-- "UNKNOWN"
abbrev pub unknown : Name
unknown = 85 ∷ 78 ∷ 75 ∷ 78 ∷ 79 ∷ 87 ∷ 78 ∷ []

-- `justTagEntry`
pub record TagEntry : Type 0 where
  pub name : Name
  pub allocated_bytes : ℕ
  pub allocation_limit : ℕ
  pub active_count : ℕ

-- `justMemHeader` and the footer
pub record Header : Type 0 where
  pub address : ℕ
  pub requested_size : ℕ
  pub aligned_payload_size : ℕ
  pub tag : Name
  pub magic : ℕ
  pub footer : ℕ

abbrev pub header_magic : ℕ
header_magic = 3405691582

abbrev pub footer_magic : ℕ
footer_magic = 3735928559

abbrev pub freed_magic : ℕ
freed_magic = 2852174609

-- `activeAllocations`, and `memoryTags` up to `registeredTagCount`
pub record Tracker : Type 0 where
  pub active_allocations : List Header
  pub memory_tags : List TagEntry

-- The loop of `getOrCreateTag` from entry `i` on.
unfoldable pub find_tag : Name → List TagEntry → ℕ → Option ℕ
find_tag tag [] i = none
find_tag tag (e ∷ es) i =
    let rest = find_tag tag es (i + 1) in if same_name e.name tag then some i else rest

abbrev pub new_entry : Name → TagEntry
new_entry tag = record {
  name = take 31 tag;
  allocated_bytes = 0;
  allocation_limit = 1024;
  active_count = 0;
}

abbrev pub is_unknown : Name → Bool
is_unknown [] = true
is_unknown (a ∷ rest) = same_name (a ∷ rest) unknown

-- `getOrCreateTag`: the index of the entry; NULL is the empty name
unfoldable pub get_or_create_tag : Tracker → Name → ℕ × Tracker
get_or_create_tag t tag = if is_unknown tag then (0, t) else elim (find_tag tag t.memory_tags 0) [
  | some i ↦ (i, t)
  | none ↦
      if ltb (length t.memory_tags) 64
      then (length t.memory_tags, record t { memory_tags = t.memory_tags ++ new_entry tag ∷ [] })
      else (0, t)
]

-- the entry of an index, changed
abbrev pub with_entry : Tracker → ℕ → (TagEntry → TagEntry) → Tracker
with_entry t i f = elim (get_elem? t.memory_tags i) [
  | none ↦ t
  | some e ↦ record t { memory_tags = set t.memory_tags i (f e) }
]

abbrev pub charged : ℕ → TagEntry → TagEntry
charged size e = record e {
  allocated_bytes = add_size e.allocated_bytes size;
  active_count = add_size e.active_count 1;
}

abbrev pub discharged : ℕ → TagEntry → TagEntry
discharged size e = record e {
  allocated_bytes = sub_size e.allocated_bytes size;
  active_count = sub_size e.active_count 1;
}

-- `linkAllocation`
unfoldable pub link_allocation : Tracker → Header → Tracker
link_allocation t h =
    let (i, t') =
      get_or_create_tag (record t { active_allocations = h ∷ t.active_allocations }) h.tag in
    with_entry t' i (charged h.requested_size)

-- the list without the header at an address
unfoldable pub without : ℕ → List Header → List Header
without a [] = []
without a (h ∷ hs) = let rest = h ∷ without a hs in if h.address == a then hs else rest

-- `unlinkAllocation`
unfoldable pub unlink_allocation : Tracker → Header → Tracker
unlink_allocation t h =
    let (i, t') =
      get_or_create_tag (record t { active_allocations = without h.address t.active_allocations })
        h.tag in
    with_entry t' i (discharged h.requested_size)

-- `verifyIntegrity`: whether it returns; if not, it aborts
unfoldable pub verify_integrity : Header → Bool
verify_integrity h = h.magic == header_magic && h.footer == footer_magic

-- `(SIZE + 7) & ~7`, and `totalBytes`; a header takes 64 bytes
abbrev pub aligned_payload : ℕ → ℕ
aligned_payload size = bit_and (add_size size 7) (2 ^ 64 - 8)

abbrev pub total_bytes : ℕ → ℕ
total_bytes size = add_size (add_size 64 (aligned_payload size)) 4

abbrev pub name_at : Tracker → ℕ → Name
name_at t i = elim (get_elem? t.memory_tags i) [ none ↦ [] | some e ↦ e.name ]

-- the test of the limit, for an entry that would hold `projected` bytes
abbrev pub over_limit : TagEntry → ℕ → Bool
over_limit e projected = ltb 0 e.allocation_limit && ltb e.allocation_limit projected

abbrev pub new_header : ℕ → ℕ → Name → Header
new_header address size tag = record {
  address = address;
  requested_size = size;
  aligned_payload_size = aligned_payload size;
  tag = tag;
  magic = header_magic;
  footer = footer_magic;
}

-- `free`, `malloc` and `realloc` of the C library, by address
module _ {Store : Type 0} (os_malloc : ℕ → Store → Option ℕ × Store)
    (os_realloc : ℕ → ℕ → Store → Option ℕ × Store) (os_free : ℕ → Store → Store) where
  unfoldable pub finish_malloc : Tracker → ℕ → Name → Option ℕ × Store → Option ℕ × Tracker × Store
  finish_malloc t size tag (none, s) = (none, t, s)
  finish_malloc t size tag (some a, s) =
      (some (add_size a 64), link_allocation t (new_header a size tag), s)

  -- `justTrackedMalloc`, from the entry of the tag on
  unfoldable pub malloc_in : ℕ → ℕ × Tracker → Store → Option ℕ × Tracker × Store
  malloc_in size (i, t) s = elim (get_elem? t.memory_tags i) [
    | none ↦ (none, t, s)
    | some e ↦
        if over_limit e (add_size e.allocated_bytes size)
        then (none, t, s)
        else finish_malloc t size e.name (os_malloc (total_bytes size) s)
  ]

  unfoldable pub tracked_malloc : Tracker → ℕ → Name → Store → Option ℕ × Tracker × Store
  tracked_malloc t size tag s = malloc_in size (get_or_create_tag t tag) s

  -- `justTrackedCalloc`; the bytes are then set to zero
  unfoldable pub tracked_calloc : Tracker → ℕ → ℕ → Name → Store → Option ℕ × Tracker × Store
  tracked_calloc t count size tag s = tracked_malloc t (mul_size count size) tag s

  -- `justTrackedRealloc` on the header in front of PTR; `none` for `abort`
  unfoldable pub finish_realloc :
      Tracker → Header → ℕ → Option ℕ × Store → Option ℕ × Tracker × Store
  finish_realloc t h size (none, s) = (none, link_allocation t h, s)
  finish_realloc t h size (some a, s) = (
    some (add_size a 64),
    link_allocation t (record h {
      address = a;
      requested_size = size;
      aligned_payload_size = aligned_payload size;
      footer = footer_magic;
    }),
    s,
  )

  unfoldable pub realloc_in : Header → ℕ → ℕ × Tracker → Store → Option ℕ × Tracker × Store
  realloc_in h size (i, t) s =
      let run =
        finish_realloc (unlink_allocation t h) h size (os_realloc h.address (total_bytes size) s) in
      elim (get_elem? t.memory_tags i) [
        | none ↦ (none, t, s)
        | some e ↦
            if over_limit e (add_size (sub_size e.allocated_bytes h.requested_size) size)
            then (none, t, s)
            else run
      ]

  unfoldable pub tracked_realloc :
      Tracker → Header → ℕ → Store → Option (Option ℕ × Tracker × Store)
  tracked_realloc t h size s =
      if verify_integrity h then some (realloc_in h size (get_or_create_tag t h.tag) s) else none

  -- `justTrackedFree` on the header in front of PTR; `none` for `abort`
  unfoldable pub tracked_free : Tracker → Header → Store → Option (Tracker × Store)
  tracked_free t h s =
      if verify_integrity h then some (unlink_allocation t h, os_free h.address s) else none

-- `justMemoryCheckBounds`: it returns true, or aborts
unfoldable pub check_bounds : List Header → Bool
check_bounds [] = true
check_bounds (h ∷ hs) = let rest = check_bounds hs in verify_integrity h && rest

-- `justMemorySetLimit`
unfoldable pub set_limit : Tracker → ℕ → Name → Tracker
set_limit t limit tag =
    let (i, t') = get_or_create_tag t tag in
    with_entry t' i (λ e. record e { allocation_limit = if limit == 0 then size_max else limit })

-- `justMemoryGetLimit`, `justMemoryGetActiveBytes` for a tag, and for NULL; a name that is new is
-- registered
abbrev pub limit_at : Tracker → ℕ → ℕ
limit_at t i = elim (get_elem? t.memory_tags i) [ none ↦ 0 | some e ↦ e.allocation_limit ]

abbrev pub bytes_at : Tracker → ℕ → ℕ
bytes_at t i = elim (get_elem? t.memory_tags i) [ none ↦ 0 | some e ↦ e.allocated_bytes ]

unfoldable pub get_limit : Tracker → Name → ℕ × Tracker
get_limit t tag = let (i, t') = get_or_create_tag t tag in (limit_at t' i, t')

unfoldable pub get_active_bytes : Tracker → Name → ℕ × Tracker
get_active_bytes t tag = let (i, t') = get_or_create_tag t tag in (bytes_at t' i, t')

unfoldable pub all_active_bytes : List TagEntry → ℕ
all_active_bytes [] = 0
all_active_bytes (e ∷ es) = add_size e.allocated_bytes (all_active_bytes es)
