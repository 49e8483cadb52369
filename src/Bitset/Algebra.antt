-- ===== src/Bitset/Algebra.antt =====
-- The operations on two bitsets, index by index.
use just_library.Base.{
  ℕ, zero, suc, ◌/◌, ◌%◌, ◌^◌, ◌<◌, ◌≡◌, refl, ap, Bool, not, ◌&&◌, ◌||◌, arith, bit_and, bit_or,
  ltb, not_size, if◌then◌else◌, Option, none, some, List, [], ◌∷◌, get_elem?,
}
use just_library.Bitset.{Bitset, block, combine, combined, union, intersection, difference, get}
use just_library.Bitset.Words.{test, test-bit_or, test-bit_and, test-not}
use just_library.Bitset.Members.{bit_of, get-bit_of, block-with_words}

-- a value of the target with one of the source, where both are there
abbrev pub both {ℓ} : {A : Type ℓ} → (A → A → A) → Option A → Option A → Option A
both f none y = none
both f (some a) none = some a
both f (some a) (some b) = some (f a b)

both-none : (f : ℕ → ℕ → ℕ) (x : Option ℕ) → x ≡ both f x none
both-none f none = refl
both-none f (some a) = refl

combine-nil : (f : ℕ → ℕ → ℕ) (n : ℕ) (ss : List ℕ) → combine f n [] ss ≡ []
unfolding combine
combine-nil f zero ss = refl
combine-nil f (suc n) ss = refl

get_elem?-combine :
    (f : ℕ → ℕ → ℕ) (n : ℕ) (ds ss : List ℕ) (i : ℕ)
    → i < n
    → get_elem? (combine f n ds ss) i ≡ both f (get_elem? ds i) (get_elem? ss i)
unfolding combine
get_elem?-combine f zero ds ss i h = elim h [ ]
get_elem?-combine f (suc n) [] ss i h = refl
get_elem?-combine f (suc n) (d ∷ ds) [] zero h = refl
get_elem?-combine f (suc n) (d ∷ ds) [] (suc i) h = both-none f (get_elem? ds i)
get_elem?-combine f (suc n) (d ∷ ds) (s ∷ ss) zero h = refl
get_elem?-combine f (suc n) (d ∷ ds) (s ∷ ss) (suc i) h =
    get_elem?-combine f n ds ss i (omega arith)

both-bits :
    (f : ℕ → ℕ → ℕ) (v : Bool → Bool → Bool) (k : ℕ) (x y : Option ℕ)
    → ((d s : ℕ) → y ≡ some s → test (f d s) k ≡ v (test d k) (test s k))
    → bit_of (both f x y) k ≡ both v (bit_of x k) (bit_of y k)
both-bits f v k none y h = refl
both-bits f v k (some d) none h = refl
both-bits f v k (some d) (some s) h = ap some (h d s refl)

combined-get :
    (f : ℕ → ℕ → ℕ) (v : Bool → Bool → Bool) (dst src : Bitset) (j : ℕ)
    → j / 64 < dst.word_count
    → j / 64 < src.word_count
    → ((d s : ℕ)
        → get_elem? (block src.words) (j / 64) ≡ some s
        → test (f d s) (j % 64) ≡ v (test d (j % 64)) (test s (j % 64)))
    → get (combined f dst src) j ≡ both v (get dst j) (get src j)
combined-get f v dst src j hd hs h =
    rw
      (
        get-bit_of (combined f dst src) j,
        get-bit_of dst j,
        get-bit_of src j,
        block-with_words dst.words (λ ds. combine f count ds (block src.words))
            (combine-nil f count (block src.words)),
        get_elem?-combine f count (block dst.words) (block src.words) (j / 64) (ground arith),
      )
      (both-bits f v (j % 64) (get_elem? (block dst.words) (j / 64))
        (get_elem? (block src.words) (j / 64)) h)
  where
    count : ℕ
    count = if ltb dst.word_count src.word_count then dst.word_count else src.word_count

get-union :
    (dst src : Bitset) (j : ℕ)
    → j / 64 < dst.word_count
    → j / 64 < src.word_count
    → get (union dst src) j ≡ both (λ a b. a || b) (get dst j) (get src j)
unfolding union
get-union dst src j hd hs =
    combined-get bit_or (λ a b. a || b) dst src j hd hs (λ d s e. test-bit_or d s (j % 64))

get-intersection :
    (dst src : Bitset) (j : ℕ)
    → j / 64 < dst.word_count
    → j / 64 < src.word_count
    → get (intersection dst src) j ≡ both (λ a b. a && b) (get dst j) (get src j)
unfolding intersection
get-intersection dst src j hd hs =
    combined-get bit_and (λ a b. a && b) dst src j hd hs (λ d s e. test-bit_and d s (j % 64))

get-difference :
    (dst src : Bitset) (j : ℕ)
    → j / 64 < dst.word_count
    → j / 64 < src.word_count
    → ((w : ℕ) → get_elem? (block src.words) (j / 64) ≡ some w → w < 2 ^ 64)
    → get (difference dst src) j ≡ both (λ a b. a && not b) (get dst j) (get src j)
unfolding difference
get-difference dst src j hd hs fits =
    combined-get (λ d s. bit_and d (not_size s)) (λ a b. a && not b) dst src j hd hs
      (λ d s e.
        rw (test-bit_and d (not_size s) (j % 64), test-not s (j % 64) (fits s e) (omega arith))
          refl)

-- An index of two sets and of what the three operations make of them.
pub record Combined (dst src : Bitset) (j : ℕ) : Type 0 where
  pub in_union : get (union dst src) j ≡ both (λ a b. a || b) (get dst j) (get src j)
  pub in_intersection : get (intersection dst src) j ≡ both (λ a b. a && b) (get dst j) (get src j)
  pub in_difference : get (difference dst src) j ≡ both (λ a b. a && not b) (get dst j) (get src j)

-- In the words that both sets have, where the source's word is a 64-bit number, an index is in the
-- union exactly if it is in one of the sets, in the intersection exactly if it is in both, and in the
-- difference exactly if it is in the target and not in the source.
pub union-Combined :
    (dst src : Bitset) (j : ℕ)
    → j / 64 < dst.word_count
    → j / 64 < src.word_count
    → ((w : ℕ) → get_elem? (block src.words) (j / 64) ≡ some w → w < 2 ^ 64)
    → Combined dst src j
union-Combined dst src j hd hs fits = record {
  in_union = get-union dst src j hd hs;
  in_intersection = get-intersection dst src j hd hs;
  in_difference = get-difference dst src j hd hs fits;
}
