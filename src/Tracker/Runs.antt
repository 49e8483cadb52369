-- ===== src/Tracker/Runs.antt =====
-- Whatever a program allocates, reallocates, frees and limits.
use just_library.Base.{
  ℕ, ◌<◌, ◌≡◌, ap, subst, ◌∙◌, Option, some, get_elem?, arith, size_mod, mul_size,
}
use just_library.Base.Sum.{total}
use just_library.Base.Text.{Name}
use just_library.Tracker.{
  Header, Tracker, tracked_malloc, tracked_calloc, tracked_realloc, tracked_free, set_limit,
}
use just_library.Tracker.Steps.{GivesNew}
use just_library.Tracker.Relink.{set_limit-IsValid, set_limit-active}
use just_library.Tracker.Sound.{
  IsSound, large, MovesNew, tracked_malloc-IsSound, tracked_realloc-IsSound, tracked_free-IsSound,
}

module _ {Store : Type 0} (os_malloc : ℕ → Store → Option ℕ × Store)
    (os_realloc : ℕ → ℕ → Store → Option ℕ × Store) (os_free : ℕ → Store → Store) where
  -- One call of the program; one that aborts has no next state.
  pub data Step (t : Tracker) (s : Store) : Tracker → Store → Type 0 where
    mallocs :
        (size : ℕ) (tag : Name) (r : Option ℕ) (t' : Tracker) (s' : Store)
        → size < size_mod
        → GivesNew os_malloc os_realloc os_free t s
        → tracked_malloc os_malloc os_realloc os_free t size tag s ≡ (r, t', s')
        → Step t s t' s'
    callocs :
        (count size : ℕ) (tag : Name) (r : Option ℕ) (t' : Tracker) (s' : Store)
        → GivesNew os_malloc os_realloc os_free t s
        → tracked_calloc os_malloc os_realloc os_free t count size tag s ≡ (r, t', s')
        → Step t s t' s'
    reallocs :
        (h : Header) (j size : ℕ) (r : Option ℕ) (t' : Tracker) (s' : Store)
        → get_elem? t.active_allocations j ≡ some h
        → size < size_mod
        → MovesNew os_malloc os_realloc os_free t h s
        → tracked_realloc os_malloc os_realloc os_free t h size s ≡ some (r, t', s')
        → Step t s t' s'
    frees :
        (h : Header) (j : ℕ) (t' : Tracker) (s' : Store)
        → get_elem? t.active_allocations j ≡ some h
        → tracked_free os_malloc os_realloc os_free t h s ≡ some (t', s')
        → Step t s t' s'
    limits : (limit : ℕ) (tag : Name) → Step t s (set_limit t limit tag) s

  pub data Reaches (t : Tracker) (s : Store) : Tracker → Store → Type 0 where
    here : Reaches t s t s
    after :
        {t' t'' : Tracker} {s' s'' : Store}
        → Reaches t s t' s'
        → Step t' s' t'' s''
        → Reaches t s t'' s''

  Step-IsSound : {t t' : Tracker} {s s' : Store} → IsSound t → Step t s t' s' → IsSound t'
  unfolding tracked_calloc
  Step-IsSound {t = t} {s = s} v (Step.mallocs size tag r t' s' l new e) =
      subst IsSound (ap (λ (y : Option ℕ × Tracker × Store). y.1) e)
        (tracked_malloc-IsSound os_malloc os_realloc os_free t size tag s l new v)
  Step-IsSound {t = t} {s = s} v (Step.callocs count size tag r t' s' new e) =
      subst IsSound (ap (λ (y : Option ℕ × Tracker × Store). y.1) e) (
        tracked_malloc-IsSound os_malloc os_realloc os_free t (mul_size count size) tag s
          (omega arith) new v)
  Step-IsSound {t = t} {s = s} v (Step.reallocs h j size r t' s' active l new e) =
      tracked_realloc-IsSound os_malloc os_realloc os_free t t' h j size r s s' v active l new e
  Step-IsSound {t = t} {s = s} v (Step.frees h j t' s' active e) =
      tracked_free-IsSound os_malloc os_realloc os_free t t' h j s s' v active e
  Step-IsSound {t = t} v (Step.limits limit tag) = record {
    valid = set_limit-IsValid t limit tag v.valid;
    sizes = ap (total large) (set_limit-active t limit tag) ∙ v.sizes;
  }

  -- Whatever is allocated, reallocated, freed and limited, in any order, granted or not: where `malloc`
  -- and `realloc` return no address that another active allocation has, every entry of the tracker goes
  -- on counting the bytes and the number of the active allocations of its tag, every allocation has
  -- an entry, and no two have the same address.
  pub Reaches-IsSound :
      (t : Tracker) (s : Store) (t' : Tracker) (s' : Store)
      → IsSound t
      → Reaches t s t' s'
      → IsSound t'
  Reaches-IsSound t s t' s' v Reaches.here = v
  Reaches-IsSound t s t' s' v (Reaches.after {t' = mid} {s' = store} run next) =
      Step-IsSound (Reaches-IsSound t s mid store v run) next
