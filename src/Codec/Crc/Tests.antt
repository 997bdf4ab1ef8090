-- ===== src/Codec/Crc/Tests.antt =====
-- Runs of the checksum, and its theorems at concrete inputs.
use seastar_log_engine.Prelude.{◌≡◌, refl, arith, codes}
use seastar_log_engine.Codec.Crc.{
  crc_bit, crc_bits, crc32_table, crc32_tables, crc32_update_byte, crc32_tail, word_le, crc32_slice,
  crc32_update, crc32,
}
use seastar_log_engine.Codec.Crc.Slicing.{crc32_update_lem}
use seastar_log_engine.Codec.Crc.Word.{crc_reference}

-- The check value of CRC-32.
crc32_check : crc32 (codes "123456789") ≡ 0xcbf43926
unfolding crc32 crc32_update crc32_slice word_le crc32_tail crc32_update_byte crc32_tables
    crc32_table crc_bits crc_bit
crc32_check = refl

crc32_update_lem_example :
    crc32_update 0xffffffff (codes "level=INFO\tx")
    ≡ crc_reference 0xffffffff (codes "level=INFO\tx")
crc32_update_lem_example =
    crc32_update_lem 0xffffffff (codes "level=INFO\tx") (omega arith) (omega arith)
