-- ===== src/Codec/Crc.antt =====
-- The checksum of src/record_codec.cc: its tables, the loop over eight bytes at a time, and
-- `crc32`. An array that is filled once and read below its size is a function of the index.
-- `x & 0xff` is `x % 256`, and a shift by k is a product or quotient by 2 ^ k.
use Prim.Native.Nat.{bit_or, bit_xor}
use seastar_log_engine.Prelude.{
  ℕ, zero, suc, ◌+◌, ◌*◌, ◌/◌, ◌%◌, ◌^◌, List, [], ◌∷◌, Bytes, ◌==◌, if◌then◌else◌,
}
pub mod Linear
pub mod Word
pub mod Slicing
mod Tests

abbrev pub crc_polynomial : ℕ
crc_polynomial = 0xedb88320

-- One round of the inner loop of `make_crc32_table`.
pub crc_bit : ℕ → ℕ
crc_bit value = if value % 2 == 1 then bit_xor crc_polynomial (value / 2) else value / 2

pub crc_bits : ℕ → ℕ → ℕ
crc_bits zero value = value
crc_bits (suc rounds) value = crc_bits rounds (crc_bit value)

-- `make_crc32_table`.
pub crc32_table : ℕ → ℕ
crc32_table i = crc_bits 8 i

-- `make_crc32_tables`, by table and byte.
pub crc32_tables : ℕ → ℕ → ℕ
crc32_tables zero byte = crc32_table byte
crc32_tables (suc table_index) byte =
    let prev = crc32_tables table_index byte in bit_xor (crc32_table (prev % 256)) (prev / 256)

-- `crc32_update_byte`, and one round of the loop for the last bytes.
pub crc32_update_byte : ℕ → ℕ → ℕ
crc32_update_byte value ch = bit_xor (crc32_tables 0 (bit_xor value ch % 256)) (value / 256)

-- The `while (remaining > 0)` loop.
pub crc32_tail : ℕ → Bytes → ℕ
crc32_tail value [] = value
crc32_tail value (ch ∷ rest) = crc32_tail (crc32_update_byte value ch) rest

-- Four bytes as a little-endian word.
pub word_le : ℕ → ℕ → ℕ → ℕ → ℕ
word_le b0 b1 b2 b3 = bit_or (bit_or (bit_or b0 (b1 * 2 ^ 8)) (b2 * 2 ^ 16)) (b3 * 2 ^ 24)

-- One round of the `while (remaining >= 8)` loop, on `value ^ first` and `second`.
pub crc32_slice : ℕ → ℕ → ℕ
crc32_slice value second =
    bit_xor
      (bit_xor
        (bit_xor
          (bit_xor
            (bit_xor
              (bit_xor
                (bit_xor (crc32_tables 7 (value % 256)) (crc32_tables 6 (value / 2 ^ 8 % 256)))
                (crc32_tables 5 (value / 2 ^ 16 % 256)))
              (crc32_tables 4 (value / 2 ^ 24 % 256)))
            (crc32_tables 3 (second % 256)))
          (crc32_tables 2 (second / 2 ^ 8 % 256)))
        (crc32_tables 1 (second / 2 ^ 16 % 256)))
      (crc32_tables 0 (second / 2 ^ 24 % 256))

pub crc32_update : ℕ → Bytes → ℕ
crc32_update value (b0 ∷ b1 ∷ b2 ∷ b3 ∷ b4 ∷ b5 ∷ b6 ∷ b7 ∷ rest) =
    crc32_update (crc32_slice (bit_xor value (word_le b0 b1 b2 b3)) (word_le b4 b5 b6 b7)) rest
crc32_update value bytes = crc32_tail value bytes

unfoldable pub crc32 : Bytes → ℕ
crc32 bytes = bit_xor (crc32_update 0xffffffff bytes) 0xffffffff
