-- ===== src/Bitset.antt =====
-- include/justUtils/dataStructures/bitset.h and src/dataStructures/bitset.c.
-- The words are a list of numbers below 2 ^ 64. A read or a write past the block, which the debug
-- assertion on the index excludes, is `none` or changes nothing.
pub mod Words
pub mod Members
pub mod Algebra
use just_library.Base.{
  ℕ, zero, suc, ◌+◌, ◌-◌, ◌*◌, ◌/◌, ◌%◌, ◌^◌, Bool, true, false, not, ◌&&◌, Option, none, some,
  List, [], ◌∷◌, get_elem?, bit_and, bit_or, bit_xor, add_size, sub_size, mul_size, not_size,
  size_max, ltb, ◌==◌, if◌then◌else◌,
}
use just_library.Memory.{Memory}

-- `JustBitset`
pub record Bitset : Type 0 where
  pub capacity : ℕ
  pub word_count : ℕ
  pub words : Option (List ℕ)
  pub owns_memory : Bool

-- the words behind the pointer
abbrev pub block : Option (List ℕ) → List ℕ
block none = []
block (some ws) = ws

-- `words[i] = f(words[i])`
abbrev pub update : (ℕ → ℕ) → List ℕ → ℕ → List ℕ
update f [] i = []
update f (w ∷ ws) zero = f w ∷ ws
update f (w ∷ ws) (suc i) = w ∷ update f ws i

abbrev pub with_words : Bitset → (List ℕ → List ℕ) → Bitset
with_words s f = record s { words = elim s.words [ none ↦ none | some ws ↦ some (f ws) ] }

-- `(uint64_t)1 << (INDEX % JUST_BITS_PER_WORD)`
abbrev pub mask : ℕ → ℕ
mask i = 2 ^ (i % 64)

-- `justBitsetGetTailMask`
unfoldable pub tail_mask : ℕ → ℕ
tail_mask capacity =
    let rem = capacity % 64 in if rem == 0 then not_size 0 else sub_size (2 ^ rem) 1

-- `justBitsetSet`, `justBitsetClear`, `justBitsetToggle`
unfoldable pub set_bit : Bitset → ℕ → Bitset
set_bit s i = with_words s (λ ws. update (λ w. bit_or w (mask i)) ws (i / 64))

unfoldable pub clear_bit : Bitset → ℕ → Bitset
clear_bit s i = with_words s (λ ws. update (λ w. bit_and w (not_size (mask i))) ws (i / 64))

unfoldable pub toggle : Bitset → ℕ → Bitset
toggle s i = with_words s (λ ws. update (λ w. bit_xor w (mask i)) ws (i / 64))

-- `justBitsetGet`
unfoldable pub get : Bitset → ℕ → Option Bool
get s i = elim (get_elem? (block s.words) (i / 64)) [
  | none ↦ none
  | some w ↦ some (not (bit_and w (mask i) == 0))
]

-- `memset` of the first `n` words, each to `w`
unfoldable pub fill : ℕ → ℕ → List ℕ → List ℕ
fill zero w ws = ws
fill (suc n) w [] = []
fill (suc n) w (x ∷ ws) = w ∷ fill n w ws

-- `justBitsetClearAll`
unfoldable pub clear_all : Bitset → Bitset
clear_all s = with_words s (fill s.word_count 0)

-- `justBitsetSetAll`
unfoldable pub set_all : Bitset → Bitset
set_all s =
    let filled = with_words s (fill s.word_count size_max) in
    if ltb 0 s.word_count
    then with_words filled
        (λ ws. update (λ w. bit_and w (tail_mask s.capacity)) ws (s.word_count - 1))
    else filled

-- `justBitsetCapacity`
unfoldable pub capacity_of : Bitset → ℕ
capacity_of s = s.capacity

-- The loop of the three operations on two sets: `d[i] = f(d[i], s[i])` for `i < count`.
unfoldable pub combine : (ℕ → ℕ → ℕ) → ℕ → List ℕ → List ℕ → List ℕ
combine f zero ds ss = ds
combine f (suc n) [] ss = []
combine f (suc n) (d ∷ ds) [] = d ∷ ds
combine f (suc n) (d ∷ ds) (s ∷ ss) = f d s ∷ combine f n ds ss

abbrev pub combined : (ℕ → ℕ → ℕ) → Bitset → Bitset → Bitset
combined f dst src =
    let count = if ltb dst.word_count src.word_count then dst.word_count else src.word_count in
    with_words dst (λ ds. combine f count ds (block src.words))

-- `justBitsetUnion`, `justBitsetIntersection`, `justBitsetDifference`
unfoldable pub union : Bitset → Bitset → Bitset
union = combined bit_or

unfoldable pub intersection : Bitset → Bitset → Bitset
intersection = combined bit_and

unfoldable pub difference : Bitset → Bitset → Bitset
difference = combined (λ d s. bit_and d (not_size s))

-- `A->words[i] == B->words[i]` under a mask, for words in the block
abbrev pub same_word : (ℕ → ℕ) → List ℕ → List ℕ → ℕ → Bool
same_word under xs ys i = elim (get_elem? xs i) [
  | none ↦ false
  | some x ↦ elim (get_elem? ys i) [ none ↦ false | some y ↦ under x == under y ]
]

-- the loop of `justBitsetEquals`: the words at `i`, `i + 1`, ..., `i + n - 1`
unfoldable pub equal_words : ℕ → List ℕ → List ℕ → ℕ → Bool
equal_words zero xs ys i = true
equal_words (suc n) xs ys i =
    let rest = equal_words n xs ys (i + 1) in if same_word (λ w. w) xs ys i then rest else false

-- `justBitsetEquals`
unfoldable pub equals : Bitset → Bitset → Bool
equals a b =
    if not (a.capacity == b.capacity)
    then false
    else if a.word_count == 0
    then true
    else if equal_words (a.word_count - 1) (block a.words) (block b.words) 0
    then same_word (λ w. bit_and w (tail_mask a.capacity)) (block a.words) (block b.words)
        (a.word_count - 1)
    else false

module _ (m : Memory ℕ) where
  open m use {Store, tracked_malloc, tracked_free}

  -- `justBitsetCreate`, from what the allocation returned
  unfoldable pub finish_create : Bitset → Option (List ℕ) × Store → Bool × Bitset × Store
  finish_create b (none, s) = (false, b, s)
  finish_create b (some ws, s) = (true, clear_all (record b { words = some ws }), s)

  -- `justBitsetCreate`; USER_BUFFER is `none` for NULL
  unfoldable pub create : ℕ → Option (List ℕ) → Store → Bool × Bitset × Store
  create capacity none s =
      let count = sub_size (add_size capacity 64) 1 / 64 in
      finish_create
        (record { capacity = capacity; word_count = count; words = none; owns_memory = true })
        (tracked_malloc 8 (mul_size count 8) s)
  create capacity (some buffer) s =
      let count = sub_size (add_size capacity 64) 1 / 64 in
      (
        true,
        clear_all (record {
          capacity = capacity;
          word_count = count;
          words = some buffer;
          owns_memory = false;
        }),
        s,
      )

  -- `justBitsetDestroy`
  unfoldable pub destroy : Bitset → Store → Bitset × Store
  destroy b s = (
    record { capacity = 0; word_count = 0; words = none; owns_memory = false },
    (if b.owns_memory then elim b.words [ none ↦ s | some ws ↦ tracked_free ws s ] else s),
  )
