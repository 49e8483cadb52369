-- ===== src/HashMap.antt =====
-- include/justUtils/dataStructures/hashMap.h and src/dataStructures/hashMap.c: open addressing with
-- linear probing and tombstones.
-- The block is a list of slots, each a header with its key and value; `getHeader`, `getKeyPtr` and
-- `getValPtr` are reads of one slot. NULL arguments and the tag are not represented.
pub mod Offsets
pub mod Loss
pub mod Probe
pub mod Slots
pub mod Write
pub mod Find
pub mod Entries
pub mod Put
pub mod Remove
pub mod Choose
pub mod Reinsert
pub mod Replay
pub mod Rehash
pub mod Refine
use just_library.Base.{
  ℕ, zero, suc, ◌+◌, ◌-◌, Bool, true, false, not, ◌&&◌, ◌||◌, Option, none, some, List, [], ◌∷◌,
  map, take, get_elem?, set, bit_and, add_size, sub_size, mul_size, if◌then◌else◌, ◌==◌, ltb, leb,
  is_some,
}
use just_library.Base.Int.{ℤ, pos}
use just_library.Memory.{Memory, allocate, free_unless_linear}
use just_library.PowerOfTwo.{map_next_power_of_two}
use just_library.HashMap.Offsets.{Layout, layout}

-- One slot, by `header->state`. A zeroed slot is `empty`; a tombstone keeps its bytes.
pub data Slot (K V : Type 0) : Type 0 where
  empty : Slot K V
  occupied : ℕ → K → V → Slot K V
  tombstone : ℕ → K → V → Slot K V

-- `JustHashMap`; `linear` says whether `allocator` is set.
pub record HashMap (K V : Type 0) : Type 0 where
  pub slots : Option (List (Slot K V))
  pub capacity : ℕ
  pub mask : ℕ
  pub count : ℕ
  pub tombstone_count : ℕ
  pub layout_of : Layout
  pub hash_function : K → ℕ
  pub compare_function : K → K → ℤ
  pub linear : Bool

-- Where `justHashmapSet` puts its entry: over the value of an equal key, into the slot at which the
-- probe met an empty one, into a tombstone after a probe of the whole table, or nowhere.
pub data Place : Type 0 where
  found fresh reuse : ℕ → Place
  nowhere : Place

module _ {K V : Type 0} where
  abbrev pub slots_of : HashMap K V → List (Slot K V)
  slots_of t = elim t.slots [ none ↦ [] | some ss ↦ ss ]

  abbrev pub is_occupied : Option (Slot K V) → Bool
  is_occupied (some (occupied h k v)) = true
  is_occupied _ = false

  abbrev pub is_tombstone : Option (Slot K V) → Bool
  is_tombstone (some (tombstone h k v)) = true
  is_tombstone _ = false

  -- `compareFunction(...) == 0`
  abbrev pub equal_keys : HashMap K V → K → K → Bool
  equal_keys t a b = elim (t.compare_function a b) [ pos n ↦ n == 0 | _ ↦ false ]

  -- `(index + i) & MAP->mask`
  abbrev pub probe : HashMap K V → ℕ → ℕ → ℕ
  probe t index i = bit_and (add_size index i) t.mask

  -- The loop of `justHashmapGet` and `justHashmapRemove` from step `i` on: the slot of the key.
  unfoldable pub find_loop : HashMap K V → K → ℕ → ℕ → ℕ → ℕ → Option ℕ
  find_loop t key hash index zero i = none
  find_loop t key hash index (suc n) i =
      let rest = find_loop t key hash index n (i + 1) in
      elim (get_elem? (slots_of t) (probe t index i)) [
        | none ↦ none
        | some empty ↦ none
        | some (tombstone h k v) ↦ rest
        | some (occupied h k v) ↦
            if h == hash && equal_keys t k key then some (probe t index i) else rest
      ]

  -- the guard and the loop
  unfoldable pub find_slot : HashMap K V → K → Option ℕ
  find_slot t key =
      if t.count == 0 || t.capacity == 0
      then none
      else let hash = t.hash_function key in find_loop t key hash (bit_and hash t.mask) t.capacity 0

  -- the value in a slot
  abbrev pub value_in : Option (Slot K V) → Option V
  value_in (some (occupied h k v)) = some v
  value_in _ = none

  abbrev pub pointed : HashMap K V → Option ℕ → Option V
  pointed t none = none
  pointed t (some i) = value_in (get_elem? (slots_of t) i)

  -- `justHashmapGet`: what the returned pointer points at, or NULL
  unfoldable pub get : HashMap K V → K → Option V
  get t key = pointed t (find_slot t key)

  -- `justHashmapContains`, `justHashmapSize`, `justHashmapIsEmpty`
  unfoldable pub contains : HashMap K V → K → Bool
  contains t key = is_some (get t key)

  unfoldable pub size_of : HashMap K V → ℕ
  size_of t = t.count

  unfoldable pub is_empty : HashMap K V → Bool
  is_empty t = t.count == 0

  abbrev pub with_slot : HashMap K V → ℕ → Slot K V → HashMap K V
  with_slot t i slot = record t {
    slots = elim t.slots [ none ↦ none | some ss ↦ some (set ss i slot) ];
  }

  -- `header->state = JUST_MAP_TOMBSTONE`
  abbrev pub buried : Option (Slot K V) → Slot K V
  buried (some (occupied h k v)) = tombstone h k v
  buried (some (tombstone h k v)) = tombstone h k v
  buried _ = empty

  -- `justHashmapRemove`
  unfoldable pub remove : HashMap K V → K → Bool × HashMap K V
  remove t key = elim (find_slot t key) [
    | none ↦ (false, t)
    | some i ↦ (
      true,
      record (with_slot t i (buried (get_elem? (slots_of t) i))) {
        count = sub_size t.count 1;
        tombstone_count = add_size t.tombstone_count 1;
      },
    )
  ]

  -- `justHashmapClear`
  unfoldable pub clear : HashMap K V → HashMap K V
  clear t = elim t.slots [
    | none ↦ t
    | some ss ↦ record t { slots = some (map (λ slot. empty) ss); count = 0; tombstone_count = 0 }
  ]

  -- The loop of `justHashmapSet` from step `i` on; `tomb` is `firstTomb`, `none` for -1.
  unfoldable pub place_loop : HashMap K V → K → ℕ → ℕ → ℕ → ℕ → Option ℕ → Place
  place_loop t key hash index zero i none = nowhere
  place_loop t key hash index zero i (some j) = reuse j
  place_loop t key hash index (suc n) i tomb =
      let p = probe t index i in
      let rest = place_loop t key hash index n (i + 1) tomb in
      let first : ℕ = elim tomb [ none ↦ p | some j ↦ j ] in
      let rest_from = place_loop t key hash index n (i + 1) (some first) in
      elim (get_elem? (slots_of t) p) [
        | none ↦ nowhere
        | some empty ↦ fresh first
        | some (tombstone h k v) ↦ rest_from
        | some (occupied h k v) ↦ if h == hash && equal_keys t k key then found p else rest
      ]

  -- `memcpy` of the value over the one in the slot
  abbrev pub revalued : Option (Slot K V) → V → Slot K V
  revalued (some (occupied h k v)) w = occupied h k w
  revalued (some (tombstone h k v)) w = tombstone h k w
  revalued _ w = empty

  -- what `justHashmapSet` does at the place that its loop found
  unfoldable pub put_at : HashMap K V → K → V → ℕ → Place → Bool × HashMap K V
  put_at t key value hash (found i) =
      (true, with_slot t i (revalued (get_elem? (slots_of t) i) value))
  put_at t key value hash (fresh i) = (
    true,
    record (with_slot t i (occupied hash key value)) {
      count = add_size t.count 1;
      tombstone_count =
          if is_tombstone (get_elem? (slots_of t) i)
          then sub_size t.tombstone_count 1
          else t.tombstone_count;
    },
  )
  put_at t key value hash (reuse i) = (
    true,
    record (with_slot t i (occupied hash key value)) {
      count = add_size t.count 1;
      tombstone_count = sub_size t.tombstone_count 1;
    },
  )
  put_at t key value hash nowhere = (false, t)

  -- The `while` loop of `hashmapResize`: the first slot from `index` on that is not occupied. The
  -- fuel is the capacity; a table with a free slot needs no more.
  unfoldable pub free_slot : HashMap K V → ℕ → ℕ → ℕ
  free_slot t zero index = index
  free_slot t (suc n) index =
      let rest = free_slot t n (bit_and (add_size index 1) t.mask) in
      if is_occupied (get_elem? (slots_of t) index) then rest else index

  -- the body of the `for` loop of `hashmapResize`
  unfoldable pub reinsert : HashMap K V → Slot K V → HashMap K V
  reinsert t (occupied h k v) =
      record (with_slot t (free_slot t t.capacity (bit_and h t.mask)) (occupied h k v)) {
        count = add_size t.count 1;
      }
  reinsert t _ = t

  -- the `for` loop
  unfoldable pub reinsert_all : HashMap K V → List (Slot K V) → HashMap K V
  reinsert_all t [] = t
  reinsert_all t (slot ∷ rest) = reinsert_all (reinsert t slot) rest

  -- the conditions of `justHashmapSet` on the load, and the capacity that it asks for
  abbrev pub is_loaded : HashMap K V → Bool
  is_loaded t =
      leb (mul_size t.capacity 3) (mul_size (add_size (add_size t.count t.tombstone_count) 1) 4)

  abbrev pub resize_target : HashMap K V → ℕ
  resize_target t =
      if ltb t.capacity (mul_size t.count 2) then mul_size t.capacity 2 else t.capacity

  -- the fields that `hashmapResize` sets before it allocates
  abbrev pub emptied : HashMap K V → ℕ → HashMap K V
  emptied t c = record t { capacity = c; mask = sub_size c 1; count = 0; tombstone_count = 0 }

  module _ (m : Memory (Slot K V)) where
    open m use {Store, tracked_free}

    -- `allocateSlots`: the block, with the `memset` to zero
    unfoldable pub zeroed : Option (List (Slot K V)) × Store → Option (List (Slot K V)) × Store
    zeroed (none, s) = (none, s)
    zeroed (some block, s) = (some (map (λ slot. empty) block), s)

    unfoldable pub allocate_slots : HashMap K V → ℕ → Store → Option (List (Slot K V)) × Store
    allocate_slots t c s =
        zeroed (allocate m t.linear t.layout_of.slot_stride (mul_size c t.layout_of.slot_stride) s)

    -- `justHashmapCreate`
    unfoldable pub finish_create :
        HashMap K V → Option (List (Slot K V)) × Store → Bool × HashMap K V × Store
    finish_create t (none, s) = (false, record t { capacity = 0; mask = 0 }, s)
    finish_create t (some ss, s) = (true, record t { slots = some ss }, s)

    unfoldable pub create :
        ℕ → ℕ → ℕ → (K → ℕ) → (K → K → ℤ) → Bool → Store → Bool × HashMap K V × Store
    create key_size value_size wanted hash_function compare_function linear s =
        let c = map_next_power_of_two wanted in
        let t : HashMap K V = record {
          slots = none;
          capacity = c;
          mask = if c == 0 then 0 else sub_size c 1;
          count = 0;
          tombstone_count = 0;
          layout_of = layout key_size value_size;
          hash_function = hash_function;
          compare_function = compare_function;
          linear = linear;
        } in
        if c == 0 then (true, t, s) else finish_create t (allocate_slots t c s)

    -- `justHashmapDestroy`
    unfoldable pub destroy : HashMap K V → Store → HashMap K V × Store
    destroy t s = (
      record t {
        slots = none;
        capacity = 0;
        mask = 0;
        count = 0;
        tombstone_count = 0;
        linear = false;
      },
      free_unless_linear m t.linear t.slots s,
    )

    -- `hashmapResize`, from what the allocation returned; `t` has the new capacity and no entries,
    -- and still the old slots
    unfoldable pub finish_resize :
        HashMap K V → ℕ → Option (List (Slot K V)) × Store → Bool × HashMap K V × Store
    finish_resize t old_capacity (none, s) = (false, t, s)
    finish_resize t old_capacity (some ss, s) = elim t.slots [
      | none ↦ (true, record t { slots = some ss }, s)
      | some old ↦
          if ltb 0 old_capacity
          then (
            true,
            reinsert_all (record t { slots = some ss }) (take old_capacity old),
            (if t.linear then s else tracked_free old s),
          )
          else (true, record t { slots = some ss }, s)
    ]

    unfoldable pub resize : HashMap K V → ℕ → Store → Bool × HashMap K V × Store
    resize t c s = finish_resize (emptied t c) t.capacity (allocate_slots (emptied t c) c s)

    -- the end of `justHashmapSet`, on what the resize returned
    unfoldable pub put : K → V → Bool × HashMap K V × Store → Bool × HashMap K V × Store
    put key value (false, t, s) = (false, t, s)
    put key value (true, t, s) =
        let hash = t.hash_function key in
        let (done, t') =
          put_at t key value hash (place_loop t key hash (bit_and hash t.mask) t.capacity 0 none) in
        (done, t', s)

    -- `justHashmapSet`
    unfoldable pub insert : HashMap K V → K → V → Store → Bool × HashMap K V × Store
    insert t key value s = put key value (
        if t.capacity == 0
        then resize t 16 s
        else if is_loaded t
        then resize t (resize_target t) s
        else (true, t, s))
