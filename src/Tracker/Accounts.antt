-- ===== src/Tracker/Accounts.antt =====
-- The entries of the tags against the active allocations.
use native.Mathlib.Decide.{ℕ_discrete}
use just_library.Base.{
  ℕ, zero, suc, ◌+◌, ◌%◌, ◌≤◌, ◌<◌, ◌≡◌, ◌≢◌, refl, sym, ap, ◌∙◌, subst, true, Option, none, some,
  List, [], ◌∷◌, length, set, get_elem?, arith, inl, inr, Bool-cases, Option-cases, if◌then◌else◌,
  ◌==◌, length-set, size_mod, get_elem?-set_self, get_elem?-set_ne, get_elem?-some, get_elem?-lt,
}
use just_library.Base.Sum.{total}
use just_library.Base.Text.{Name}
use just_library.Tracker.{
  TagEntry, Header, Tracker, get_or_create_tag, with_entry, charged, discharged, link_allocation,
  unlink_allocation, without,
}
use just_library.Tracker.Names.{entry_of, entry_of-lt, entry_of-set, get_or_create_tag-old}

-- what a header counts for in the entry `i`
unfoldable pub share : List TagEntry → (Header → ℕ) → ℕ → Header → ℕ
share es f i h = elim (entry_of es h.tag) [ none ↦ 0 | some k ↦ if k == i then f h else 0 ]

unfoldable pub lost : List TagEntry → Header → ℕ
lost es h = elim (entry_of es h.tag) [ none ↦ 1 | some k ↦ 0 ]

abbrev pub at_address : ℕ → Header → ℕ
at_address a h = if h.address == a then 1 else 0

abbrev pub one : Header → ℕ
one h = 1

abbrev pub size_of : Header → ℕ
size_of h = h.requested_size

-- Every entry counts the bytes and the number of the active allocations of its tag, as a `size_t`,
-- every allocation has an entry, and no two have the same address.
pub record IsValid (t : Tracker) : Type 0 where
  pub some_tags : 0 < length t.memory_tags
  pub booked :
      (i : ℕ) (e : TagEntry)
      → get_elem? t.memory_tags i ≡ some e
      → e.allocated_bytes ≡ total (share t.memory_tags size_of i) t.active_allocations % size_mod
  pub numbered :
      (i : ℕ) (e : TagEntry)
      → get_elem? t.memory_tags i ≡ some e
      → e.active_count ≡ total (share t.memory_tags one i) t.active_allocations % size_mod
  pub kept : total (lost t.memory_tags) t.active_allocations ≡ 0
  pub apart : (a : ℕ) → total (at_address a) t.active_allocations ≤ 1

total-cong :
    (f g : Header → ℕ) (hs : List Header) → ((h : Header) → f h ≡ g h) → total f hs ≡ total g hs
unfolding total
total-cong f g [] e = refl
total-cong f g (h ∷ hs) e = omega (arith, e h, total-cong f g hs e)

pub share-set :
    (es : List TagEntry) (i : ℕ) (e e' : TagEntry) (f : Header → ℕ) (j : ℕ) (h : Header)
    → get_elem? es i ≡ some e
    → e'.name ≡ e.name
    → share (set es i e') f j h ≡ share es f j h
unfolding share
share-set es i e e' f j h at s =
    ap (λ (o : Option ℕ). elim o [ none ↦ 0 | some k ↦ if k == j then f h else 0 ])
      (entry_of-set es h.tag i e e' at s)

pub lost-set :
    (es : List TagEntry) (i : ℕ) (e e' : TagEntry) (h : Header)
    → get_elem? es i ≡ some e
    → e'.name ≡ e.name
    → lost (set es i e') h ≡ lost es h
unfolding lost
lost-set es i e e' h at s =
    ap (λ (o : Option ℕ). elim o [ none ↦ 1 | some k ↦ 0 ]) (entry_of-set es h.tag i e e' at s)

pub share-own :
    (es : List TagEntry) (f : Header → ℕ) (k i : ℕ) (h : Header)
    → entry_of es h.tag ≡ some k
    → share es f i h ≡ (if k == i then f h else 0)
unfolding share
share-own es f k i h e =
    ap (λ (o : Option ℕ). elim o [ none ↦ 0 | some k ↦ if k == i then f h else 0 ]) e

pub lost-own :
    (es : List TagEntry) (k : ℕ) (h : Header) → entry_of es h.tag ≡ some k → lost es h ≡ 0
unfolding lost
lost-own es k h e = ap (λ (o : Option ℕ). elim o [ none ↦ 1 | some k ↦ 0 ]) e

-- One counter of the entries, after the entry `k` was changed to match other allocations.
counter-set :
    (es : List TagEntry) (counter : TagEntry → ℕ) (f : Header → ℕ) (hs hs' : List Header) (k : ℕ)
    (e e' : TagEntry)
    → get_elem? es k ≡ some e
    → e'.name ≡ e.name
    → ((i : ℕ) (x : TagEntry)
        → get_elem? es i ≡ some x
        → counter x ≡ total (share es f i) hs % size_mod)
    → ((i : ℕ) → i ≢ k → total (share es f i) hs' ≡ total (share es f i) hs)
    → counter e' ≡ total (share es f k) hs' % size_mod
    → (i : ℕ) (x : TagEntry) → get_elem? (set es k e') i ≡ some x
    → counter x ≡ total (share (set es k e') f i) hs' % size_mod
counter-set es counter f hs hs' k e e' at same old others new i x got =
    let shares =
      total-cong (share (set es k e') f i) (share es f i) hs'
        (λ h. share-set es k e e' f i h at same) in
    elim (ℕ_discrete i k) [
      | yes q ↦
          let g : some e' ≡ some x =
            sym (get_elem?-set_self es k e' (get_elem?-lt es k e at))
            ∙ ap (get_elem? (set es k e')) (sym q)
            ∙ got in
          let same_entry : e' ≡ x = cc g in
          ap counter (sym same_entry)
          ∙ new
          ∙ ap (λ j. total (share es f j) hs' % size_mod) (sym q)
          ∙ ap (λ n. n % size_mod) (sym shares)
      | no q ↦
          let before : get_elem? es i ≡ some x =
            sym (get_elem?-set_ne es k i e' (λ p. q (sym p))) ∙ got in
          old i x before
          ∙ ap (λ n. n % size_mod) (sym (others i q))
          ∙ ap (λ n. n % size_mod) (sym shares)
    ]

-- Other active allocations, with the entry `k` of one tag changed to match.
pub rebooked :
    (t : Tracker) (v : IsValid t) (k : ℕ) (e e' : TagEntry) (hs : List Header)
    → get_elem? t.memory_tags k ≡ some e
    → e'.name ≡ e.name
    → ((i : ℕ) (f : Header → ℕ)
        → i ≢ k
        → total (share t.memory_tags f i) hs ≡ total (share t.memory_tags f i) t.active_allocations)
    → e'.allocated_bytes ≡ total (share t.memory_tags size_of k) hs % size_mod
    → e'.active_count ≡ total (share t.memory_tags one k) hs % size_mod
    → total (lost t.memory_tags) hs ≡ 0
    → ((a : ℕ) → total (at_address a) hs ≤ 1)
    → IsValid (record { active_allocations = hs; memory_tags = set t.memory_tags k e' })
rebooked t v k e e' hs at same others bytes number none_lost apart = record {
  some_tags = omega (arith, v.some_tags, length-set t.memory_tags k e');
  booked =
      counter-set t.memory_tags (λ x. x.allocated_bytes) size_of t.active_allocations hs k e e' at
        same v.booked (λ i. others i size_of) bytes;
  numbered =
      counter-set t.memory_tags (λ x. x.active_count) one t.active_allocations hs k e e' at same
        v.numbered (λ i. others i one) number;
  kept = total-cong _ _ hs (λ h. lost-set t.memory_tags k e e' h at same) ∙ none_lost;
  apart = apart;
}

pub total-member :
    (f : Header → ℕ) (hs : List Header) (j : ℕ) (h : Header)
    → get_elem? hs j ≡ some h
    → f h ≤ total f hs
unfolding total
total-member f [] j h at = absurd (cc at)
total-member f (x ∷ hs) zero h at = let g : x ≡ h = cc at in omega (arith, ap f g)
total-member f (x ∷ hs) (suc j) h at = omega (arith, total-member f hs j h at)

-- Taking out an allocation takes out its weight.
pub total-without :
    (f : Header → ℕ) (hs : List Header) (j : ℕ) (h : Header)
    → get_elem? hs j ≡ some h
    → total (at_address h.address) hs ≤ 1
    → total f (without h.address hs) + f h ≡ total f hs
unfolding total without
total-without f [] j h at once = absurd (cc at)
total-without f (x ∷ hs) zero h at once =
    let g : x ≡ h = cc at in
    let e : (x.address == h.address) ≡ true = ground (arith, ap (λ y. y.address) g) in
    simp e (omega (arith, ap f g))
total-without f (x ∷ hs) (suc j) h at once = elim (Bool-cases (x.address == h.address)) [
  | inl e ↦
      let own : at_address h.address h ≡ 1 = ground arith in
      let there = total-member (at_address h.address) hs j h at in
      absurd (ground (arith, once, e, own, there))
  | inr e ↦ simp e (omega (arith, total-without f hs j h at (omega arith)))
]

pub total-without_le :
    (f : Header → ℕ) (a : ℕ) (hs : List Header) → total f (without a hs) ≤ total f hs
unfolding total without
total-without_le f a [] = omega arith
total-without_le f a (x ∷ hs) = elim (Bool-cases (x.address == a)) [
  | inl e ↦ simp e (omega arith)
  | inr e ↦ simp e (omega (arith, total-without_le f a hs))
]

-- The two counters of a tag that has an entry, changed.
with_entry-IsValid :
    (t : Tracker) (v : IsValid t) (hs : List Header) (tag : Name) (k : ℕ)
    (change : TagEntry → TagEntry)
    → entry_of t.memory_tags tag ≡ some k
    → ((e : TagEntry)
        → get_elem? t.memory_tags k ≡ some e
        → IsValid
            (record { active_allocations = hs; memory_tags = set t.memory_tags k (change e) }))
    → (let t' = record t { active_allocations = hs } in
        let r = get_or_create_tag t' tag in IsValid (with_entry r.1 r.0 change))
with_entry-IsValid t v hs tag k change own h =
    let t' : Tracker = record t { active_allocations = hs } in
    let (e, at) =
      get_elem?-some t.memory_tags k (entry_of-lt t.memory_tags tag k v.some_tags own) in
    subst (λ (r : ℕ × Tracker). IsValid (with_entry r.1 r.0 change))
      (sym (get_or_create_tag-old t' tag k own))
      (subst
        (λ (o : Option TagEntry). IsValid (elim o [
          | none ↦ t'
          | some e ↦ record t' { memory_tags = set t.memory_tags k (change e) }
        ]))
        (sym at) (h e at))

-- `linkAllocation` of a header whose tag has an entry and whose address is new.
pub link_allocation-IsValid :
    (t : Tracker) (h : Header) (k : ℕ)
    → IsValid t
    → entry_of t.memory_tags h.tag ≡ some k
    → total (at_address h.address) t.active_allocations ≡ 0
    → IsValid (link_allocation t h)
unfolding link_allocation total
link_allocation-IsValid t h k v own new =
    with_entry-IsValid t v (h ∷ t.active_allocations) h.tag k (charged h.requested_size) own
      (λ e at.
        let mine = λ (f : Header → ℕ) (i : ℕ). share-own t.memory_tags f k i h own in
        rebooked t v k e (charged h.requested_size e) (h ∷ t.active_allocations) at refl
          (λ i f d. ground (arith, mine f i, d)) (ground (arith, mine size_of k, v.booked k e at))
          (ground (arith, mine one k, v.numbered k e at))
          (omega (arith, lost-own t.memory_tags k h own, v.kept))
          (λ a. elim (ℕ_discrete h.address a) [
            | yes q ↦
                subst (λ b. at_address b h + total (at_address b) t.active_allocations ≤ 1) q
                  (ground (arith, new))
            | no q ↦ ground (arith, v.apart a, q)
          ]))

-- `unlinkAllocation` of an active allocation.
pub unlink_allocation-IsValid :
    (t : Tracker) (h : Header) (j k : ℕ)
    → IsValid t
    → get_elem? t.active_allocations j ≡ some h
    → entry_of t.memory_tags h.tag ≡ some k
    → h.requested_size < size_mod
    → IsValid (unlink_allocation t h)
unfolding unlink_allocation
unlink_allocation-IsValid t h j k v active own small =
    with_entry-IsValid t v (without h.address t.active_allocations) h.tag k
      (discharged h.requested_size) own
      (λ e at.
        let mine = λ (f : Header → ℕ) (i : ℕ). share-own t.memory_tags f k i h own in
        let less =
          λ (f : Header → ℕ). total-without f t.active_allocations j h active (v.apart h.address) in
        rebooked t v k e (discharged h.requested_size e) (without h.address t.active_allocations) at
          refl (λ i f d. ground (arith, mine f i, less (share t.memory_tags f i), d))
          (ground (arith, mine size_of k, v.booked k e at, less (share t.memory_tags size_of k)))
          (ground (arith, mine one k, v.numbered k e at, less (share t.memory_tags one k)))
          (omega
            (arith, v.kept, total-without_le (lost t.memory_tags) h.address t.active_allocations))
          (λ a.
            omega
              (arith, v.apart a, total-without_le (at_address a) h.address t.active_allocations)))

-- An active allocation has an entry.
pub active-own :
    (t : Tracker) (v : IsValid t) (h : Header) (j : ℕ)
    → get_elem? t.active_allocations j ≡ some h
    → (k : ℕ) × (entry_of t.memory_tags h.tag ≡ some k)
unfolding lost
active-own t v h j at = elim (Option-cases (entry_of t.memory_tags h.tag)) [
  | inr (k, e) ↦ (k, e)
  | inl e ↦
      let one_lost : lost t.memory_tags h ≡ 1 =
        ap (λ (o : Option ℕ). elim o [ none ↦ 1 | some k ↦ 0 ]) e in
      absurd (
        omega
          (arith, one_lost, total-member (lost t.memory_tags) t.active_allocations j h at, v.kept))
]
