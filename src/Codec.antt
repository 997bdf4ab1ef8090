-- ===== src/Codec.antt =====
-- src/record_codec.cc: checksums, the text of a record, and its reader.
pub mod Crc
pub mod Xxh
pub mod Text
pub mod Encode
pub mod Json
pub mod Record
pub mod Scan
pub mod Tests
