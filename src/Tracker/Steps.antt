-- ===== src/Tracker/Steps.antt =====
-- The public operations of the tracker keep its accounts.
use just_library.Base.{
  ℕ, zero, suc, ◌%◌, ◌<◌, ◌≡◌, ◌⊎◌, refl, sym, ap, ◌∙◌, false, Option, none, some, List, [], ◌∷◌,
  ◌++◌, length, get_elem?, arith, inl, inr, Bool-cases, Option-cases, ltb, length-append, size_mod,
  add_size,
}
use just_library.Base.Sum.{total}
use just_library.Base.Text.{Name}
use just_library.Tracker.{
  TagEntry, Header, Tracker, new_entry, is_unknown, find_tag, get_or_create_tag, over_limit,
  total_bytes, new_header, finish_malloc, malloc_in, tracked_malloc, tracked_free, verify_integrity,
}
use just_library.Tracker.Names.{entry_of, entry_of-lt, entry_of-append, entry_of-name}
use just_library.Tracker.Accounts.{
  IsValid, share, lost, at_address, one, size_of, share-own, lost-own, link_allocation-IsValid,
  unlink_allocation-IsValid, active-own,
}

appended :
    (es : List TagEntry) (e : TagEntry) (i : ℕ) (x : TagEntry)
    → get_elem? (es ++ e ∷ []) i ≡ some x
    → (get_elem? es i ≡ some x) ⊎ ((i ≡ length es) × (e ≡ x))
appended [] e zero x at = inr (refl, cc at)
appended [] e (suc i) x at = absurd (cc at)
appended (y ∷ es) e zero x at = inl at
appended (y ∷ es) e (suc i) x at = elim (appended es e i x at) [
  | inl f ↦ inl f
  | inr (p, q) ↦ inr (ap suc p, q)
]

owned : (es : List TagEntry) (h : Header) → lost es h ≡ 0 → (k : ℕ) × (entry_of es h.tag ≡ some k)
unfolding lost
owned es h z = elim (Option-cases (entry_of es h.tag)) [
  | inr (k, e) ↦ (k, e)
  | inl e ↦
      let bad : 1 ≡ 0 = sym (ap (λ (o : Option ℕ). elim o [ none ↦ 1 | some k ↦ 0 ]) e) ∙ z in
      absurd (omega (arith, bad))
]

-- For headers that have an entry, a new entry changes no share, and has none.
shares-append :
    (es : List TagEntry) (e : TagEntry) (f : Header → ℕ) (hs : List Header) (i : ℕ)
    → 0 < length es
    → total (lost es) hs ≡ 0
    → (total (share (es ++ e ∷ []) f i) hs ≡ total (share es f i) hs)
      × (i ≡ length es → total (share es f i) hs ≡ 0)
      × (total (lost (es ++ e ∷ [])) hs ≡ 0)
unfolding total
shares-append es e f [] i l none_lost = (refl, λ p. refl, refl)
shares-append es e f (h ∷ hs) i l none_lost =
    let (k, own) = owned es h (omega arith) in
    let k_lt = entry_of-lt es h.tag k l own in
    let own' = entry_of-append es h.tag e k own in
    let (same, fresh, kept) = shares-append es e f hs i l (omega arith) in
    let before = share-own es f k i h own in
    let after = share-own (es ++ e ∷ []) f k i h own' in
    (
      omega (arith, same, before, after),
      λ p. ground (arith, fresh p, before, p, k_lt),
      omega (arith, kept, lost-own (es ++ e ∷ []) k h own'),
    )

-- A new entry is right: no allocation has it yet.
new_entry-IsValid :
    (t : Tracker) (tag : Name)
    → IsValid t
    → IsValid (record t { memory_tags = t.memory_tags ++ new_entry tag ∷ [] })
new_entry-IsValid t tag v =
    let e = new_entry tag in
    let shares = λ (f : Header → ℕ) (i : ℕ).
      shares-append t.memory_tags e f t.active_allocations i v.some_tags v.kept in
    record {
      some_tags = omega (arith, length-append t.memory_tags (e ∷ []));
      booked = λ i x at. elim (appended t.memory_tags e i x at) [
        | inl f ↦ v.booked i x f ∙ ap (λ n. n % size_mod) (sym (shares size_of i).0)
        | inr (p, q) ↦
            sym (ap (λ y. y.allocated_bytes) q)
            ∙ sym (ap (λ n. n % size_mod) ((shares size_of i).0 ∙ (shares size_of i).1 p))
      ];
      numbered = λ i x at. elim (appended t.memory_tags e i x at) [
        | inl f ↦ v.numbered i x f ∙ ap (λ n. n % size_mod) (sym (shares one i).0)
        | inr (p, q) ↦
            sym (ap (λ y. y.active_count) q)
            ∙ sym (ap (λ n. n % size_mod) ((shares one i).0 ∙ (shares one i).1 p))
      ];
      kept = (shares one 0).2;
      apart = v.apart;
    }

pub get_or_create_tag-IsValid :
    (t : Tracker) (tag : Name) → IsValid t → IsValid (get_or_create_tag t tag).1
unfolding get_or_create_tag
get_or_create_tag-IsValid t tag v = elim (Bool-cases (is_unknown tag)) [
  | inl u ↦ simp u v
  | inr u ↦ elim (Option-cases (find_tag tag t.memory_tags 0)) [
    | inr (k, f) ↦ simp (u, f) v
    | inl f ↦ elim (Bool-cases (ltb (length t.memory_tags) 64)) [
      | inl b ↦ simp (u, f, b) (new_entry-IsValid t tag v)
      | inr b ↦ simp (u, f, b) v
    ]
  ]
]

pub get_or_create_tag-allocations :
    (t : Tracker) (tag : Name)
    → (get_or_create_tag t tag).1.active_allocations ≡ t.active_allocations
unfolding get_or_create_tag
get_or_create_tag-allocations t tag = elim (Bool-cases (is_unknown tag)) [
  | inl u ↦ simp u refl
  | inr u ↦ elim (Option-cases (find_tag tag t.memory_tags 0)) [
    | inr (k, f) ↦ simp (u, f) refl
    | inl f ↦ elim (Bool-cases (ltb (length t.memory_tags) 64)) [
      | inl b ↦ simp (u, f, b) refl
      | inr b ↦ simp (u, f, b) refl
    ]
  ]
]

module _ {Store : Type 0} (os_malloc : ℕ → Store → Option ℕ × Store)
    (os_realloc : ℕ → ℕ → Store → Option ℕ × Store) (os_free : ℕ → Store → Store) where
  -- `malloc` returns no address that is in use.
  abbrev pub GivesNew : Tracker → Store → Type 0
  GivesNew t s =
      (bytes a : ℕ) → (os_malloc bytes s).0 ≡ some a → total (at_address a) t.active_allocations ≡ 0

  finish_malloc-IsValid :
      (t : Tracker) (size i : ℕ) (e : TagEntry) (res : Option ℕ × Store)
      → IsValid t
      → get_elem? t.memory_tags i ≡ some e
      → ((a : ℕ) → res.0 ≡ some a → total (at_address a) t.active_allocations ≡ 0)
      → IsValid (finish_malloc os_malloc os_realloc os_free t size e.name res).1
  unfolding finish_malloc
  finish_malloc-IsValid t size i e (none, s) v at new = v
  finish_malloc-IsValid t size i e (some a, s) v at new =
      let (k, own) = entry_of-name t.memory_tags i e at in
      link_allocation-IsValid t (new_header a size e.name) k v own (new a refl)

  malloc_in-IsValid :
      (size i : ℕ) (t : Tracker) (s : Store)
      → IsValid t
      → GivesNew t s
      → IsValid (malloc_in os_malloc os_realloc os_free size (i, t) s).1
  unfolding malloc_in
  malloc_in-IsValid size i t s v new = elim (Option-cases (get_elem? t.memory_tags i)) [
    | inl e ↦ rw (malloc_in, e) v
    | inr (e, at) ↦
        rw (malloc_in, at)
          (elim (Bool-cases (over_limit e (add_size e.allocated_bytes size))) [
            | inl b ↦ rw b v
            | inr b ↦ rw b (
                finish_malloc-IsValid t size i e (os_malloc (total_bytes size) s) v at
                  (new (total_bytes size)))
          ])
  ]

  -- `justTrackedMalloc`, whether it is granted, over the limit or refused, and whether or not the
  -- tag is new: where `malloc` returns no address in use, every entry goes on counting the bytes and
  -- the number of the active allocations of its tag.
  pub tracked_malloc-IsValid :
      (t : Tracker) (size : ℕ) (tag : Name) (s : Store)
      → IsValid t
      → GivesNew t s
      → IsValid (tracked_malloc os_malloc os_realloc os_free t size tag s).1
  unfolding tracked_malloc
  tracked_malloc-IsValid t size tag s v new =
      malloc_in-IsValid size (get_or_create_tag t tag).0 (get_or_create_tag t tag).1 s
        (get_or_create_tag-IsValid t tag v)
        (λ bytes a got.
          ap (total (at_address a)) (get_or_create_tag-allocations t tag) ∙ new bytes a got)

  -- How `justTrackedFree` ends: with the accounts right, or, where the header or the canary behind
  -- the payload is damaged, in `abort`.
  pub data Freed (h : Header) : Option (Tracker × Store) → Type 0 where
    released : {t : Tracker} {s : Store} → IsValid t → Freed h (some (t, s))
    aborted : verify_integrity h ≡ false → Freed h none

  -- `justTrackedFree` of an active allocation.
  pub tracked_free-Freed :
      (t : Tracker) (h : Header) (j : ℕ) (s : Store)
      → IsValid t
      → get_elem? t.active_allocations j ≡ some h
      → h.requested_size < size_mod
      → Freed h (tracked_free os_malloc os_realloc os_free t h s)
  unfolding tracked_free
  tracked_free-Freed t h j s v active small = elim (Bool-cases (verify_integrity h)) [
    | inl b ↦
        let (k, own) = active-own t v h j active in
        simp b (released (unlink_allocation-IsValid t h j k v active own small))
    | inr b ↦ simp b (aborted b)
  ]
