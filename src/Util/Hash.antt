-- ===== src/Util/Hash.antt =====
-- `cg_hash_uint64` of include/util/cg_util.h and `cg_hash_str` of src/util/cg_util.c. The two CRC
-- instructions of the processor are parameters.
use compuguessr.Base.{ℕ, ◌+◌, ◌*◌, ◌^◌, bit_xor, List, [], ◌∷◌}
use compuguessr.Base.Words.{u8, u32, u64, ◌>>>◌}

unfoldable pub hash_uint64 : ℕ → ℕ
hash_uint64 n =
    let n₁ = u64 (bit_xor n (n >>> 30) * 0xbf58476d1ce4e5b9) in
    let n₂ = u64 (bit_xor n₁ (n₁ >>> 27) * 0x94d049bb133111eb) in bit_xor n₂ (n₂ >>> 31)

-- `_mm_crc32_u64` and `_mm_crc32_u8`: from the sum so far and the next word or byte.
pub record Crc : Type 0 where
  pub crc32_u64 : ℕ → ℕ → ℕ
  pub crc32_u8 : ℕ → ℕ → ℕ

-- Eight bytes read as a little-endian word.
abbrev pub word64 : ℕ → ℕ → ℕ → ℕ → ℕ → ℕ → ℕ → ℕ → ℕ
word64 a b c d e f g h =
    a + b * 2 ^ 8 + c * 2 ^ 16 + d * 2 ^ 24 + e * 2 ^ 32 + f * 2 ^ 40 + g * 2 ^ 48 + h * 2 ^ 56

module _ (hw : Crc) where
  -- `while (len > 0)`: the bytes that are left.
  unfoldable pub hash_bytes : ℕ → List ℕ → ℕ
  hash_bytes crc [] = crc
  hash_bytes crc (c ∷ cs) = hash_bytes (hw.crc32_u8 (u32 crc) (u8 c)) cs

  -- `while (len >= 8)`: whole words first.
  unfoldable pub hash_words : ℕ → List ℕ → ℕ
  unfolding hash_bytes
  hash_words crc (a ∷ b ∷ c ∷ d ∷ e ∷ f ∷ g ∷ h ∷ rest) =
      hash_words (hw.crc32_u64 crc (word64 a b c d e f g h)) rest
  hash_words crc tail = hash_bytes crc tail

  -- `str` is the `len` bytes that are hashed.
  unfoldable pub hash_str : List ℕ → ℕ
  unfolding hash_words
  hash_str str = hash_words 0xFFFFFFFF str
