-- ===== src/Bitset/Members.antt =====
-- A bitset as a set of indices: what setting, clearing and toggling one index does to every index.
use native.Mathlib.Decide.{ℕ_discrete}
use just_library.Base.{
  ℕ, zero, suc, ◌/◌, ◌%◌, ◌<◌, ◌≡◌, ◌≢◌, refl, sym, ap, Bool, true, false, not, arith, bit_and,
  bit_or, bit_xor, ◌==◌, not_size, if◌then◌else◌, Option, none, some, List, [], ◌∷◌, get_elem?,
  Bool-cases, inl, inr,
}
use just_library.Bitset.{Bitset, block, update, with_words, mask, set_bit, clear_bit, toggle, get}
use just_library.Bitset.Words.{test, test-bit_or, test-bit_and, test-not, test-pow, test-bit_xor}
use just_library.Base.Pow.{pow-lt}

-- the bit of an optional word
abbrev pub bit_of : Option ℕ → ℕ → Option Bool
bit_of none k = none
bit_of (some w) k = some (test w k)

pub get-bit_of :
    (s : Bitset) (i : ℕ) → get s i ≡ bit_of (get_elem? (block s.words) (i / 64)) (i % 64)
unfolding get
get-bit_of s i = go (get_elem? (block s.words) (i / 64))
  where
    go :
        (o : Option ℕ)
        → (elim o [ none ↦ none | some w ↦ some (not (bit_and w (mask i) == 0)) ])
          ≡ bit_of o (i % 64)
    go none = refl
    go (some w) = refl

-- what one word turns into
abbrev changed : (ℕ → ℕ) → Option ℕ → Option ℕ
changed f none = none
changed f (some w) = some (f w)

get_elem?-update_self :
    (f : ℕ → ℕ) (ws : List ℕ) (i : ℕ) → get_elem? (update f ws i) i ≡ changed f (get_elem? ws i)
get_elem?-update_self f [] i = refl
get_elem?-update_self f (w ∷ ws) zero = refl
get_elem?-update_self f (w ∷ ws) (suc i) = get_elem?-update_self f ws i

get_elem?-update_ne :
    (f : ℕ → ℕ) (ws : List ℕ) (i j : ℕ) → i ≢ j → get_elem? (update f ws i) j ≡ get_elem? ws j
get_elem?-update_ne f [] i j h = refl
get_elem?-update_ne f (w ∷ ws) zero zero h = absurd (h refl)
get_elem?-update_ne f (w ∷ ws) zero (suc j) h = refl
get_elem?-update_ne f (w ∷ ws) (suc i) zero h = refl
get_elem?-update_ne f (w ∷ ws) (suc i) (suc j) h = get_elem?-update_ne f ws i j (λ e. h (ap suc e))

pub block-with_words :
    (o : Option (List ℕ)) (f : List ℕ → List ℕ)
    → f [] ≡ []
    → block (elim o [ none ↦ none | some ws ↦ some (f ws) ]) ≡ f (block o)
block-with_words none f e = sym e
block-with_words (some ws) f e = refl

abbrev pub on_bit : (Bool → Bool) → Option Bool → Option Bool
on_bit v none = none
on_bit v (some b) = some (v b)

changed-get :
    (f : ℕ → ℕ) (v : Bool → Bool) (r k : ℕ) (o : Option ℕ)
    → ((w : ℕ) → test (f w) k ≡ (if r == k then v (test w k) else test w k))
    → bit_of (changed f o) k ≡ (if r == k then on_bit v (bit_of o k) else bit_of o k)
changed-get f v r k none h = elim (Bool-cases (r == k)) [ inl e ↦ rw e refl | inr e ↦ rw e refl ]
changed-get f v r k (some w) h = elim (Bool-cases (r == k)) [
  | inl e ↦ rw e (ap some (rw e at (h w)))
  | inr e ↦ rw e (ap some (rw e at (h w)))
]

-- A change of one word that gives its bit at `i % 64` the value `v` and keeps the others changes
-- the set at `i` and nowhere else.
update-get :
    (s : Bitset) (i j : ℕ) (f : ℕ → ℕ) (v : Bool → Bool)
    → ((w k : ℕ) → k < 64 → test (f w) k ≡ (if i % 64 == k then v (test w k) else test w k))
    → get (with_words s (λ ws. update f ws (i / 64))) j
      ≡ (if i == j then on_bit v (get s j) else get s j)
update-get s i j f v h =
    rw
      (
        get-bit_of (with_words s (λ ws. update f ws (i / 64))) j,
        get-bit_of s j,
        block-with_words s.words (λ ws. update f ws (i / 64)) refl,
      )
      (elim (ℕ_discrete (i / 64) (j / 64)) [
        | yes p ↦
            let same : (i == j) ≡ (i % 64 == j % 64) = ground arith in
            rw (same, p, get_elem?-update_self f (block s.words) (j / 64))
              (changed-get f v (i % 64) (j % 64) (get_elem? (block s.words) (j / 64))
                (λ w. h w (j % 64) (omega arith)))
        | no p ↦
            let other : (i == j) ≡ false = ground arith in
            rw (other, get_elem?-update_ne f (block s.words) (i / 64) (j / 64) p) refl
      ])

get-set_bit :
    (s : Bitset) (i j : ℕ)
    → get (set_bit s i) j ≡ (if i == j then on_bit (λ b. true) (get s j) else get s j)
unfolding set_bit
get-set_bit s i j =
    update-get s i j (λ w. bit_or w (mask i)) (λ b. true)
      (λ w k h. rw (test-bit_or w (mask i) k, test-pow (i % 64) k) (ground arith))

get-clear_bit :
    (s : Bitset) (i j : ℕ)
    → get (clear_bit s i) j ≡ (if i == j then on_bit (λ b. false) (get s j) else get s j)
unfolding clear_bit
get-clear_bit s i j =
    update-get s i j (λ w. bit_and w (not_size (mask i))) (λ b. false)
      (λ w k h.
        rw
          (
            test-bit_and w (not_size (mask i)) k,
            test-not (mask i) k (pow-lt (i % 64) 64 (omega arith)) h,
            test-pow (i % 64) k,
          )
          (ground arith))

get-toggle :
    (s : Bitset) (i j : ℕ) → get (toggle s i) j ≡ (if i == j then on_bit not (get s j) else get s j)
unfolding toggle
get-toggle s i j =
    update-get s i j (λ w. bit_xor w (mask i)) not
      (λ w k h. rw (test-bit_xor w (mask i) k, test-pow (i % 64) k) (ground arith))

-- What setting, clearing and toggling the index `i` does to the index `j`.
pub record Changed (s : Bitset) (i j : ℕ) : Type 0 where
  pub after_set : get (set_bit s i) j ≡ (if i == j then on_bit (λ b. true) (get s j) else get s j)
  pub after_clear :
      get (clear_bit s i) j ≡ (if i == j then on_bit (λ b. false) (get s j) else get s j)
  pub after_toggle : get (toggle s i) j ≡ (if i == j then on_bit not (get s j) else get s j)

-- `justBitsetSet` puts its index in the set, `justBitsetClear` takes it out and `justBitsetToggle`
-- turns it round, and each of them leaves every other index as it was.
pub set_bit-Changed : (s : Bitset) (i j : ℕ) → Changed s i j
set_bit-Changed s i j = record {
  after_set = get-set_bit s i j;
  after_clear = get-clear_bit s i j;
  after_toggle = get-toggle s i j;
}
