-- ===== src/HashMap/Loss.antt =====
-- `hashmapResize` and `justHashmapSet` where the allocation of the new slots fails.
use just_library.Base.{
  ℕ, ◌≡◌, ◌≢◌, refl, ap, ◌∙◌, true, false, Option, none, some, List, arith, ◌==◌,
}
use just_library.Memory.{Memory}
use just_library.HashMap.{
  Slot, HashMap, pointed, get, find_slot, insert, put, resize, finish_resize, allocate_slots,
  emptied, is_loaded, resize_target,
}

module _ {K V : Type 0} (m : Memory (Slot K V)) where
  open m use {Store}

  find_slot-empty : (t : HashMap K V) (key : K) → t.count ≡ 0 → find_slot t key ≡ none
  unfolding find_slot
  find_slot-empty t key e = let z : (t.count == 0) ≡ true = ground arith in rw z refl

  get-empty : (t : HashMap K V) (key : K) → t.count ≡ 0 → get t key ≡ none
  unfolding get
  get-empty t key e = ap (pointed t) (find_slot-empty t key e)

  put-refused :
      (t : HashMap K V) (key : K) (value : V) (c : ℕ) (res : Option (List (Slot K V)) × Store)
      → res.0 ≡ none
      → put m key value (finish_resize m t c res) ≡ (false, t, res.1)
  unfolding put finish_resize
  put-refused t key value c (none, s) e = refl
  put-refused t key value c (some ss, s) e = absurd (cc e)

  -- When a map that has reached its load cannot get the memory to be rehashed, `justHashmapSet`
  -- fails, and afterwards every key of the map is missing.
  pub insert_loses :
      (t : HashMap K V) (key : K) (value : V) (s : Store)
      → t.capacity ≢ 0
      → is_loaded t ≡ true
      → (allocate_slots m (emptied t (resize_target t)) (resize_target t) s).0 ≡ none
      → ((insert m t key value s).0 ≡ false)
        × ((other : K) → get (insert m t key value s).1 other ≡ none)
  unfolding insert resize
  insert_loses t key value s some_capacity loaded no_memory =
      let z : (t.capacity == 0) ≡ false = ground arith in
      let run =
        put-refused (emptied t (resize_target t)) key value t.capacity
          (allocate_slots m (emptied t (resize_target t)) (resize_target t) s) no_memory in
      simp (z, loaded)
        (
          ap (λ r. r.0) run,
          λ other. ap (λ r. get r.1 other) run ∙ get-empty (emptied t (resize_target t)) other refl,
        )
