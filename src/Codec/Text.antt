-- ===== src/Codec/Text.antt =====
-- The parts of a record's text: decimal and hexadecimal numbers, levels, and the checksum prefix.
use seastar_log_engine.Prelude.{
  ℕ, zero, suc, ◌+◌, ◌-◌, ◌*◌, ◌/◌, ◌%◌, ◌^◌, Bool, true, false, Option, none, some, List, [], ◌∷◌,
  ◌++◌, Bytes, codes, ltb, ◌==◌, if◌then◌else◌, decimal_rounds,
}
use seastar_log_engine.Config.{CrcClass, header, payload_hash, full, LogLevel, info, warn, error}
pub mod Decimal
pub mod Hex

-- `decimal_length`, with the rounds that a 64-bit number can need.
unfoldable pub decimal_length_loop : ℕ → ℕ → ℕ → ℕ
decimal_length_loop zero value digits = digits
decimal_length_loop (suc rounds) value digits =
    let rest = decimal_length_loop rounds (value / 10) (digits + 1) in
    if ltb value 10 then digits else rest

unfoldable pub decimal_length : ℕ → ℕ
decimal_length value = decimal_length_loop decimal_rounds value 1

-- `hex_digits[value & 0xf]`.
unfoldable pub hex_digit : ℕ → ℕ
hex_digit v = if ltb v 10 then b'0' + v else b'a' + (v - 10)

-- `append_hex32` and `append_hex64` with `n` digits, the lowest written last.
unfoldable pub hex_text : ℕ → ℕ → Bytes
hex_text zero value = []
hex_text (suc n) value = hex_text n (value / 16) ++ hex_digit (value % 16) ∷ []

unfoldable pub level_to_string : LogLevel → Bytes
level_to_string info = codes "INFO"
level_to_string warn = codes "WARN"
level_to_string error = codes "ERROR"

-- `write_crc_prefix`: the bytes in front of the body.
unfoldable pub crc_prefix : ℕ → CrcClass → ℕ → Bytes
crc_prefix crc header hash = codes "crc=h:" ++ hex_text 8 crc ++ b'\t' ∷ []
crc_prefix crc payload_hash hash =
    codes "crc=x:" ++ hex_text 8 crc ++ codes ":" ++ hex_text 16 hash ++ b'\t' ∷ []
crc_prefix crc full hash = codes "crc=" ++ hex_text 8 crc ++ b'\t' ∷ []
crc_prefix crc CrcClass.none hash = []

unfoldable pub crc_prefix_size : CrcClass → ℕ
crc_prefix_size header = 15
crc_prefix_size payload_hash = 32
crc_prefix_size full = 13
crc_prefix_size CrcClass.none = 0
