-- ===== src/HashMap/Slots.antt =====
-- The slots of a hash map as a list: what a slot holds, how many are taken, and when the entries
-- stand where a probe finds them.
use native.Mathlib.Decide.{ℕ_discrete, dec_le}
use native.Mathlib.Nat.{mod-lt, mod-eq-sub-mod, mod-eq_of_lt}
use just_library.Base.{
  ℕ, zero, suc, ◌+◌, ◌-◌, ◌%◌, ◌≤◌, ◌<◌, ◌≡◌, ◌≢◌, refl, sym, ap, ◌∙◌, subst, Bool, true, Option,
  none, some, List, [], ◌∷◌, length, get_elem?, set, length-set, get_elem?-set_self,
  get_elem?-set_ne, arith, ◌⊎◌, inl, inr,
}
unfoldable pub use just_library.Base.Sum.{total}
pub use just_library.Base.Sum.{total-set}
use just_library.HashMap.{Slot, empty, occupied, tombstone}

-- the slot of step `d` of the probe for a hash, in a table of `n` slots
abbrev pub spot : ℕ → ℕ → ℕ → ℕ
spot n h d = (h % n + d) % n

module _ {K V : Type 0} where
  -- not empty; past the table nothing is asked
  abbrev pub Filled : Option (Slot K V) → Type 0
  Filled (some empty) = ⊥
  Filled _ = Unit {0}

  abbrev pub Taken : Option (Slot K V) → Type 0
  Taken (some (occupied h k v)) = Unit {0}
  Taken _ = ⊥

  pub Taken-Filled : (o : Option (Slot K V)) → Taken o → Filled o
  Taken-Filled none t = tt
  Taken-Filled (some empty) t = t
  Taken-Filled (some (occupied h k v)) t = tt
  Taken-Filled (some (tombstone h k v)) t = tt

  -- 1 for an entry, 1 for a tombstone
  abbrev pub live : Slot K V → ℕ
  live (occupied h k v) = 1
  live _ = 0

  abbrev pub dead : Slot K V → ℕ
  dead (tombstone h k v) = 1
  dead _ = 0

  pub total-le : (ss : List (Slot K V)) → total live ss + total dead ss ≤ length ss
  unfolding total
  total-le [] = omega arith
  total-le (s ∷ ss) = ground (arith, total-le ss)

  -- A table whose slots are all taken has as many entries as slots.
  pub total-full :
      (ss : List (Slot K V))
      → ((j : ℕ) → j < length ss → Taken (get_elem? ss j))
      → total live ss ≡ length ss
  unfolding total
  total-full [] h = refl
  total-full (occupied x k v ∷ ss) h = omega (arith, total-full ss (λ j l. h (suc j) (omega arith)))
  total-full (empty ∷ ss) h = absurd (h zero (omega arith))
  total-full (tombstone x k v ∷ ss) h = absurd (h zero (omega arith))

  pub total-pos :
      (ss : List (Slot K V)) (j h : ℕ) (k : K) (v : V)
      → get_elem? ss j ≡ some (occupied h k v)
      → 0 < total live ss
  unfolding total
  total-pos [] j h k v e = absurd (cc e)
  total-pos (s ∷ ss) zero h k v e =
      let same : s ≡ occupied h k v = cc e in omega (arith, ap live same)
  total-pos (s ∷ ss) (suc j) h k v e = omega (arith, total-pos ss j h k v e)

  -- What a write does to each slot.
  pub written_cases :
      (ss : List (Slot K V)) (i j : ℕ) (s : Slot K V)
      → i < length ss
      → ((j ≡ i) × (get_elem? (set ss i s) j ≡ some s))
        ⊎ ((j ≢ i) × (get_elem? (set ss i s) j ≡ get_elem? ss j))
  written_cases ss i j s l = elim (ℕ_discrete j i) [
    | yes p ↦ inl (p, rw p (get_elem?-set_self ss i s l))
    | no p ↦ inr (p, get_elem?-set_ne ss i j s (λ e. p (sym e)))
  ]

  -- The probe for the hash comes to slot `j` past filled slots only.
  abbrev pub Reached : List (Slot K V) → ℕ → ℕ → Type 0
  Reached ss h j =
      (d : ℕ) × (d < length ss)
      × (spot (length ss) h d ≡ j)
      × ((i : ℕ) → i < d → Filled (get_elem? ss (spot (length ss) h i)))

  pub Reached-set :
      (ss : List (Slot K V)) (i : ℕ) (s : Slot K V) (h j : ℕ)
      → i < length ss
      → Filled (some s)
      → Reached ss h j
      → Reached (set ss i s) h j
  Reached-set ss i s h j l f (d, small, at, path) = (
    d,
    omega (arith, length-set ss i s),
    rw (length-set ss i s) at,
    λ e le. rw (length-set ss i s) (elim (written_cases ss i (spot (length ss) h e) s l) [
      | inl (p, w) ↦ subst Filled (sym w) f
      | inr (p, w) ↦ subst Filled (sym w) (path e le)
    ]),
  )

-- Every slot is a step of every probe.
pub spot-onto : (n h j : ℕ) → j < n → (d : ℕ) × (d < n) × (spot n h d ≡ j)
spot-onto n h j l = elim (dec_le (h % n) j) [
  | yes p ↦ (
    j - h % n,
    omega arith,
    ap (λ t. t % n) {x = h % n + (j - h % n)} {y = j} (omega arith)
        ∙ mod-eq_of_lt {n = j} {m = n} l,
  )
  | no p ↦
      let below = mod-lt h {m = n} (omega arith) in
      (
        n - h % n + j,
        omega arith,
        ap (λ t. t % n) {x = h % n + (n - h % n + j)} {y = n + j} (omega arith)
            ∙ mod-eq-sub-mod {n = n + j} {m = n} (omega arith)
            ∙ ap (λ t. t % n) {x = n + j - n} {y = j} (omega arith)
            ∙ mod-eq_of_lt {n = j} {m = n} l,
      )
]

-- What the map asks of its two functions.
pub record IsKeyed {K : Type 0} (hash : K → ℕ) (same : K → K → Bool) : Type 0 where
  pub same_refl : (a : K) → same a a ≡ true
  pub same_left : (a b c : K) → same a b ≡ true → same a c ≡ same b c
  pub hash_same : (a b : K) → same a b ≡ true → hash a ≡ hash b

module _ {K : Type 0} {hash : K → ℕ} {same : K → K → Bool} (keyed : IsKeyed hash same) where
  pub same_sym : (a b : K) → same a b ≡ true → same b a ≡ true
  same_sym a b e = sym (keyed.same_left a b a e) ∙ keyed.same_refl a

  pub same_trans : (a b c : K) → same a b ≡ true → same b c ≡ true → same a c ≡ true
  same_trans a b c e f = keyed.same_left a b c e ∙ f

module _ {K V : Type 0} (hash : K → ℕ) (same : K → K → Bool) where
  -- The entries have the hashes of their keys, are reached by their probes, and have different keys.
  pub record Placed (ss : List (Slot K V)) : Type 0 where
    pub hashed : (j h : ℕ) (k : K) (v : V) → get_elem? ss j ≡ some (occupied h k v) → h ≡ hash k
    pub reached :
        (j h : ℕ) (k : K) (v : V) → get_elem? ss j ≡ some (occupied h k v) → Reached ss h j
    pub unique :
        (i j h h' : ℕ) (k k' : K) (v v' : V)
        → get_elem? ss i ≡ some (occupied h k v)
        → get_elem? ss j ≡ some (occupied h' k' v')
        → same k k' ≡ true
        → i ≡ j

  -- an entry of a key that the comparison calls equal
  abbrev pub Has : List (Slot K V) → K → ℕ → V → Type 0
  Has ss q j v = (h : ℕ) × (k : K) × (get_elem? ss j ≡ some (occupied h k v)) × (same k q ≡ true)
