-- ===== src/Config/Names.antt =====
-- The names of the enumerations are read back.
use seastar_log_engine.Prelude.{◌≡◌, refl, some}
use seastar_log_engine.Config.{
  CrcClass, none, header, payload_hash, full, AckMode, write_ack, sync_ack, crc_class_to_string,
  parse_crc_class, ack_mode_to_string, parse_ack_mode,
}

parse_crc_class-to_string : (v : CrcClass) → parse_crc_class (crc_class_to_string v) ≡ some v
unfolding parse_crc_class crc_class_to_string
parse_crc_class-to_string none = refl
parse_crc_class-to_string header = refl
parse_crc_class-to_string payload_hash = refl
parse_crc_class-to_string full = refl

parse_ack_mode-to_string : (v : AckMode) → parse_ack_mode (ack_mode_to_string v) ≡ some v
unfolding parse_ack_mode ack_mode_to_string
parse_ack_mode-to_string write_ack = refl
parse_ack_mode-to_string sync_ack = refl
