-- ===== src/HashMap/Offsets.antt =====
-- src/dataStructures/hashMap.c: the layout of a slot, `[Header] [Key] [Pad] [Value] [Pad]`, and the
-- default hash and comparison.
use just_library.Base.{
  ℕ, List, [], ◌∷◌, bit_and, bit_xor, add_size, mul_size, not_size, if◌then◌else◌, ◌==◌,
}
use just_library.Base.Int.{ℤ, pos}

-- the sizes and offsets of `JustHashMap`
pub record Layout : Type 0 where
  pub key_size : ℕ
  pub value_size : ℕ
  pub key_offset : ℕ
  pub value_offset : ℕ
  pub slot_stride : ℕ

-- the offsets that `justHashmapCreate` computes; a header has 16 bytes, the alignment of
-- `max_align_t`
unfoldable pub layout : ℕ → ℕ → Layout
layout key_size value_size =
    let key_aligned = bit_and (add_size key_size 7) (not_size 7) in
    let value_offset = add_size 16 key_aligned in
    let value_aligned = bit_and (add_size value_size 7) (not_size 7) in
    record {
      key_size = key_size;
      value_size = value_size;
      key_offset = 16;
      value_offset = value_offset;
      slot_stride = bit_and (add_size (add_size value_offset value_aligned) 15) (not_size 15);
    }

-- `defaultFastHash`, from the bytes of the key
unfoldable pub hash_from : ℕ → List ℕ → ℕ
hash_from hash [] = hash
hash_from hash (byte ∷ bytes) = hash_from (mul_size (bit_xor hash byte) 1099511628211) bytes

unfoldable pub default_fast_hash : List ℕ → ℕ
default_fast_hash bytes = hash_from 14695981039346656037 bytes

-- `defaultComparator`; `memcmp` is the library's, and `read_word` the read of eight bytes
unfoldable pub default_comparator : {K : Type 0} → (K → K → ℕ → ℤ) → (K → ℕ) → K → K → ℕ → ℤ
default_comparator memcmp read_word a b size =
    if size == 8 then (if read_word a == read_word b then pos 0 else pos 1) else memcmp a b size
