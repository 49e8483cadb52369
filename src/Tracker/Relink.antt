-- ===== src/Tracker/Relink.antt =====
-- Taking an allocation off the list and putting one back, as a reallocation does.
use just_library.Base.{
  ℕ, ◌<◌, ◌≡◌, refl, sym, ap, subst, ◌∙◌, Option, none, some, ◌∷◌, get_elem?, set, arith, inl, inr,
  Option-cases, size_mod, if◌then◌else◌, size_max, ◌==◌,
}
use just_library.Base.Sum.{total}
use just_library.Base.Text.{Name}
use just_library.Tracker.{
  TagEntry, Header, Tracker, get_or_create_tag, with_entry, charged, discharged, link_allocation,
  unlink_allocation, without, set_limit,
}
use just_library.Tracker.Names.{entry_of, entry_of-set, get_or_create_tag-old}
use just_library.Tracker.Accounts.{
  IsValid, at_address, rebooked, total-without, link_allocation-IsValid, unlink_allocation-IsValid,
  active-own,
}
use just_library.Tracker.Steps.{get_or_create_tag-IsValid, get_or_create_tag-allocations}

-- A changed entry keeps its name and the list, so every tag keeps its entry.
record Kept (t t' : Tracker) : Type 0 where
  same_list : t'.active_allocations ≡ t.active_allocations
  same_entry : (tag : Name) → entry_of t'.memory_tags tag ≡ entry_of t.memory_tags tag

with_entry-Kept :
    (t : Tracker) (i : ℕ) (change : TagEntry → TagEntry)
    → ((e : TagEntry) → (change e).name ≡ e.name)
    → Kept t (with_entry t i change)
with_entry-Kept t i change same = elim (Option-cases (get_elem? t.memory_tags i)) [
  | inl f ↦
      subst
        (λ (o : Option TagEntry). Kept t (elim o [
          | none ↦ t
          | some e ↦ record t { memory_tags = set t.memory_tags i (change e) }
        ]))
        (sym f) (record { same_list = refl; same_entry = λ tag. refl })
  | inr (e, f) ↦
      subst
        (λ (o : Option TagEntry). Kept t (elim o [
          | none ↦ t
          | some e ↦ record t { memory_tags = set t.memory_tags i (change e) }
        ]))
        (sym f)
        (record {
          same_list = refl;
          same_entry = λ tag. entry_of-set t.memory_tags tag i e (change e) f (same e);
        })
]

unlink_allocation-Kept :
    (t : Tracker) (h : Header) (k : ℕ)
    → entry_of t.memory_tags h.tag ≡ some k
    → Kept
        (record t { active_allocations = without h.address t.active_allocations })
        (unlink_allocation t h)
unfolding unlink_allocation
unlink_allocation-Kept t h k own =
    let t' : Tracker = record t { active_allocations = without h.address t.active_allocations } in
    subst (λ (r : ℕ × Tracker). Kept t' (with_entry r.1 r.0 (discharged h.requested_size)))
      (sym (get_or_create_tag-old t' h.tag k own))
      (with_entry-Kept t' k (discharged h.requested_size) (λ e. refl))

pub link_allocation-active :
    (t : Tracker) (h : Header) → (link_allocation t h).active_allocations ≡ h ∷ t.active_allocations
unfolding link_allocation
link_allocation-active t h =
    let t' : Tracker = record t { active_allocations = h ∷ t.active_allocations } in
    let r = get_or_create_tag t' h.tag in
    let kept = with_entry-Kept r.1 r.0 (charged h.requested_size) (λ e. refl) in
    kept.same_list ∙ get_or_create_tag-allocations t' h.tag

pub unlink_allocation-active :
    (t : Tracker) (h : Header)
    → (unlink_allocation t h).active_allocations ≡ without h.address t.active_allocations
unfolding unlink_allocation
unlink_allocation-active t h =
    let t' : Tracker = record t { active_allocations = without h.address t.active_allocations } in
    let r = get_or_create_tag t' h.tag in
    let kept = with_entry-Kept r.1 r.0 (discharged h.requested_size) (λ e. refl) in
    kept.same_list ∙ get_or_create_tag-allocations t' h.tag

-- What was taken off can be put back under any address that the others do not have.
pub relink-IsValid :
    (t : Tracker) (h h' : Header) (j : ℕ)
    → IsValid t
    → get_elem? t.active_allocations j ≡ some h
    → h.requested_size < size_mod
    → h'.tag ≡ h.tag
    → total (at_address h'.address) (without h.address t.active_allocations) ≡ 0
    → IsValid (link_allocation (unlink_allocation t h) h')
relink-IsValid t h h' j v active small tag new =
    let (k, own) = active-own t v h j active in
    let kept = unlink_allocation-Kept t h k own in
    link_allocation-IsValid (unlink_allocation t h) h' k
      (unlink_allocation-IsValid t h j k v active own small)
      (ap (entry_of (unlink_allocation t h).memory_tags) tag ∙ kept.same_entry h.tag ∙ own)
      (ap (total (at_address h'.address)) kept.same_list ∙ new)

-- The address that was taken off is free.
pub without-at_address :
    (t : Tracker) (h : Header) (j : ℕ)
    → IsValid t
    → get_elem? t.active_allocations j ≡ some h
    → total (at_address h.address) (without h.address t.active_allocations) ≡ 0
without-at_address t h j v active =
    let once = v.apart h.address in
    let own : at_address h.address h ≡ 1 = ground arith in
    omega (arith, own, total-without (at_address h.address) t.active_allocations j h active once)

with_limit-IsValid :
    (t : Tracker) (i n : ℕ)
    → IsValid t
    → IsValid (with_entry t i (λ e. record e { allocation_limit = n }))
with_limit-IsValid t i n v = elim (Option-cases (get_elem? t.memory_tags i)) [
  | inl f ↦
      subst
        (λ (o : Option TagEntry). IsValid (elim o [
          | none ↦ t
          | some e ↦ record t {
            memory_tags = set t.memory_tags i (record e { allocation_limit = n });
          }
        ]))
        (sym f) v
  | inr (e, f) ↦
      subst
        (λ (o : Option TagEntry). IsValid (elim o [
          | none ↦ t
          | some e ↦ record t {
            memory_tags = set t.memory_tags i (record e { allocation_limit = n });
          }
        ]))
        (sym f)
        (rebooked t v i e (record e { allocation_limit = n }) t.active_allocations f refl
          (λ j g d. refl) (v.booked i e f) (v.numbered i e f) v.kept v.apart)
]

pub set_limit-IsValid :
    (t : Tracker) (limit : ℕ) (tag : Name) → IsValid t → IsValid (set_limit t limit tag)
unfolding set_limit
set_limit-IsValid t limit tag v =
    with_limit-IsValid (get_or_create_tag t tag).1 (get_or_create_tag t tag).0
      (if limit == 0 then size_max else limit) (get_or_create_tag-IsValid t tag v)

pub set_limit-active :
    (t : Tracker) (limit : ℕ) (tag : Name)
    → (set_limit t limit tag).active_allocations ≡ t.active_allocations
unfolding set_limit
set_limit-active t limit tag =
    let r = get_or_create_tag t tag in
    let n = if limit == 0 then size_max else limit in
    let kept = with_entry-Kept r.1 r.0 (λ e. record e { allocation_limit = n }) (λ e. refl) in
    kept.same_list ∙ get_or_create_tag-allocations t tag
