-- ===== src/Tracker/Sound.antt =====
-- Each operation keeps the accounts right.
use just_library.Base.{
  ℕ, ◌<◌, ◌≡◌, refl, ap, subst, ◌∙◌, Option, none, some, get_elem?, arith, inl, inr, Bool-cases,
  Option-cases, ltb, size_mod, add_size, sub_size, if◌then◌else◌,
}
use just_library.Base.Sum.{total}
use just_library.Base.Text.{Name}
use just_library.Tracker.{
  Header, Tracker, get_or_create_tag, link_allocation, unlink_allocation, without, over_limit,
  new_header, total_bytes, finish_malloc, malloc_in, tracked_malloc, finish_realloc, realloc_in,
  tracked_realloc, tracked_free, verify_integrity, aligned_payload, footer_magic,
}
use just_library.Tracker.Accounts.{
  IsValid, active-own, unlink_allocation-IsValid, at_address, total-member, total-without_le,
}
use just_library.Tracker.Steps.{
  GivesNew, tracked_malloc-IsValid, get_or_create_tag-IsValid, get_or_create_tag-allocations,
}
use just_library.Tracker.Relink.{
  link_allocation-active, unlink_allocation-active, relink-IsValid, without-at_address,
}

abbrev pub large : Header → ℕ
large h = if ltb h.requested_size size_mod then 0 else 1

-- The accounts are right, and every size is a `size_t`.
pub record IsSound (t : Tracker) : Type 0 where
  pub valid : IsValid t
  pub sizes : total large t.active_allocations ≡ 0

pub small-active :
    (t : Tracker) (h : Header) (j : ℕ)
    → IsSound t
    → get_elem? t.active_allocations j ≡ some h
    → h.requested_size < size_mod
small-active t h j v active =
    let one_of = total-member large t.active_allocations j h active in
    let all = v.sizes in ground (arith, one_of, all)

pub link-sizes :
    (t : Tracker) (h : Header)
    → h.requested_size < size_mod
    → total large t.active_allocations ≡ 0
    → total large (link_allocation t h).active_allocations ≡ 0
unfolding total
link-sizes t h l z = ap (total large) (link_allocation-active t h) ∙ ground (arith, z, l)

pub unlink-sizes :
    (t : Tracker) (h : Header)
    → total large t.active_allocations ≡ 0
    → total large (unlink_allocation t h).active_allocations ≡ 0
unlink-sizes t h z =
    ap (total large) (unlink_allocation-active t h)
    ∙ omega (arith, z, total-without_le large h.address t.active_allocations)

module _ {Store : Type 0} (os_malloc : ℕ → Store → Option ℕ × Store)
    (os_realloc : ℕ → ℕ → Store → Option ℕ × Store) (os_free : ℕ → Store → Store) where
  -- `realloc` returns no address that another allocation has.
  abbrev pub MovesNew : Tracker → Header → Store → Type 0
  MovesNew t h s =
      (bytes a : ℕ)
      → (os_realloc h.address bytes s).0 ≡ some a
      → total (at_address a) (without h.address t.active_allocations) ≡ 0

  pub finish_malloc-sizes :
      (t : Tracker) (size : ℕ) (tag : Name) (res : Option ℕ × Store)
      → size < size_mod
      → total large t.active_allocations ≡ 0
      → total large (finish_malloc os_malloc os_realloc os_free t size tag res).1.active_allocations
        ≡ 0
  unfolding finish_malloc
  finish_malloc-sizes t size tag (none, s) l z = z
  finish_malloc-sizes t size tag (some a, s) l z = link-sizes t (new_header a size tag) l z

  pub malloc_in-sizes :
      (size i : ℕ) (t : Tracker) (s : Store)
      → size < size_mod
      → total large t.active_allocations ≡ 0
      → total large (malloc_in os_malloc os_realloc os_free size (i, t) s).1.active_allocations ≡ 0
  unfolding malloc_in
  malloc_in-sizes size i t s l z = elim (Option-cases (get_elem? t.memory_tags i)) [
    | inl e ↦ rw (malloc_in, e) z
    | inr (e, at) ↦
        rw (malloc_in, at)
          (elim (Bool-cases (over_limit e (add_size e.allocated_bytes size))) [
            | inl b ↦ rw b z
            | inr b ↦ rw b (finish_malloc-sizes t size e.name (os_malloc (total_bytes size) s) l z)
          ])
  ]

  pub tracked_malloc-IsSound :
      (t : Tracker) (size : ℕ) (tag : Name) (s : Store)
      → size < size_mod
      → GivesNew os_malloc os_realloc os_free t s
      → IsSound t
      → IsSound (tracked_malloc os_malloc os_realloc os_free t size tag s).1
  unfolding tracked_malloc
  tracked_malloc-IsSound t size tag s l new v = record {
    valid = tracked_malloc-IsValid os_malloc os_realloc os_free t size tag s v.valid new;
    sizes =
        malloc_in-sizes size (get_or_create_tag t tag).0 (get_or_create_tag t tag).1 s l
          (ap (total large) (get_or_create_tag-allocations t tag) ∙ v.sizes);
  }

  pub finish_realloc-IsSound :
      (t : Tracker) (h : Header) (j size : ℕ) (res : Option ℕ × Store)
      → IsSound t
      → get_elem? t.active_allocations j ≡ some h
      → size < size_mod
      → ((a : ℕ)
          → res.0 ≡ some a
          → total (at_address a) (without h.address t.active_allocations) ≡ 0)
      → IsSound (finish_realloc os_malloc os_realloc os_free (unlink_allocation t h) h size res).1
  unfolding finish_realloc
  finish_realloc-IsSound t h j size (none, s) v active l new = record {
    valid =
        relink-IsValid t h h j v.valid active (small-active t h j v active) refl
          (without-at_address t h j v.valid active);
    sizes =
        link-sizes (unlink_allocation t h) h (small-active t h j v active)
          (unlink-sizes t h v.sizes);
  }
  finish_realloc-IsSound t h j size (some a, s) v active l new =
      let h' : Header = record h {
        address = a;
        requested_size = size;
        aligned_payload_size = aligned_payload size;
        footer = footer_magic;
      } in
      record {
        valid =
            relink-IsValid t h h' j v.valid active (small-active t h j v active) refl (new a refl);
        sizes = link-sizes (unlink_allocation t h) h' l (unlink-sizes t h v.sizes);
      }

  pub realloc_in-IsSound :
      (t : Tracker) (h : Header) (j size i : ℕ) (s : Store)
      → IsSound t
      → get_elem? t.active_allocations j ≡ some h
      → size < size_mod
      → MovesNew t h s
      → IsSound (realloc_in os_malloc os_realloc os_free h size (i, t) s).1
  unfolding realloc_in
  realloc_in-IsSound t h j size i s v active l new =
      elim (Option-cases (get_elem? t.memory_tags i)) [
        | inl e ↦ rw (realloc_in, e) v
        | inr (e, at) ↦
            rw (realloc_in, at)
              (elim (Bool-cases
                (over_limit e (add_size (sub_size e.allocated_bytes h.requested_size) size))) [
                  | inl b ↦ rw b v
                  | inr b ↦ rw b (
                      finish_realloc-IsSound t h j size (os_realloc h.address (total_bytes size) s)
                        v active l (new (total_bytes size)))
                ])
      ]

  pub tracked_realloc-IsSound :
      (t t' : Tracker) (h : Header) (j size : ℕ) (r : Option ℕ) (s s' : Store)
      → IsSound t
      → get_elem? t.active_allocations j ≡ some h
      → size < size_mod
      → MovesNew t h s
      → tracked_realloc os_malloc os_realloc os_free t h size s ≡ some (r, t', s')
      → IsSound t'
  unfolding tracked_realloc
  tracked_realloc-IsSound t t' h j size r s s' v active l new e =
      elim (Bool-cases (verify_integrity h)) [
        | inr b ↦ let f : none ≡ some (r, t', s') = rw (tracked_realloc, b) at e in absurd (cc f)
        | inl b ↦
            let g = get_or_create_tag t h.tag in
            let same = get_or_create_tag-allocations t h.tag in
            let f : some (realloc_in os_malloc os_realloc os_free h size g s) ≡ some (r, t', s') =
              rw (tracked_realloc, b) at e in
            let x : realloc_in os_malloc os_realloc os_free h size g s ≡ (r, t', s') = cc f in
            let sound : IsSound g.1 = record {
              valid = get_or_create_tag-IsValid t h.tag v.valid;
              sizes = ap (total large) same ∙ v.sizes;
            } in
            subst IsSound (ap (λ (y : Option ℕ × Tracker × Store). y.1) x) (
              realloc_in-IsSound g.1 h j size g.0 s sound (ap (λ hs. get_elem? hs j) same ∙ active)
                l
                (λ bytes a got.
                  ap (λ hs. total (at_address a) (without h.address hs)) same ∙ new bytes a got))
      ]

  pub tracked_free-IsSound :
      (t t' : Tracker) (h : Header) (j : ℕ) (s s' : Store)
      → IsSound t
      → get_elem? t.active_allocations j ≡ some h
      → tracked_free os_malloc os_realloc os_free t h s ≡ some (t', s')
      → IsSound t'
  unfolding tracked_free
  tracked_free-IsSound t t' h j s s' v active e = elim (Bool-cases (verify_integrity h)) [
    | inr b ↦ let f : none ≡ some (t', s') = rw (tracked_free, b) at e in absurd (cc f)
    | inl b ↦
        let f : some (unlink_allocation t h, os_free h.address s) ≡ some (t', s') =
          rw (tracked_free, b) at e in
        let same : unlink_allocation t h ≡ t' = cc f in
        let (k, own) = active-own t v.valid h j active in
        subst IsSound same (record {
          valid =
              unlink_allocation-IsValid t h j k v.valid active own (small-active t h j v active);
          sizes = unlink-sizes t h v.sizes;
        })
  ]
