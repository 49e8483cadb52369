-- ===== src/Tests/Bits.antt =====
-- Bitsets on concrete inputs: 100 indices in two words.
use just_library.Base.{
  ℕ, ◌/◌, ◌<◌, ◌^◌, ◌≡◌, ap, true, Option, none, some, [], ◌∷◌, arith, get_elem?,
}
use just_library.Bitset.{Bitset, block}
use just_library.Bitset.Members.{Changed, set_bit-Changed}
use just_library.Bitset.Algebra.{Combined, union-Combined}

abbrev evens : Bitset
evens = record { capacity = 100; word_count = 2; words = some (5 ∷ 1 ∷ []); owns_memory = true }

abbrev ones : Bitset
ones = record { capacity = 100; word_count = 2; words = some (3 ∷ 3 ∷ []); owns_memory = true }

set_bit-Changed_example : Changed evens 65 65
set_bit-Changed_example = set_bit-Changed evens 65 65

number : Option ℕ → ℕ
number none = 0
number (some w) = w

word_fits : (w : ℕ) → get_elem? (block ones.words) (64 / 64) ≡ some w → w < 2 ^ 64
unfolding number
word_fits w e = let same : 3 ≡ w = ap number e in omega arith

union-Combined_example : Combined evens ones 64
union-Combined_example = union-Combined evens ones 64 (omega arith) (omega arith) word_fits
