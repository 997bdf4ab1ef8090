-- ===== src/Reader/Tests.antt =====
-- Runs of the reader of src/log_reader.cc on small files, and its theorems at concrete queries.
use seastar_log_engine.Prelude.{
  ◌≡◌, refl, inr, Bool, true, false, none, some, List, [], ◌∷◌, Bytes, codes, take, bytes_eq,
  if◌then◌else◌, All,
}
use seastar_log_engine.Layout.{SegmentDescriptor}
use seastar_log_engine.Reader.{
  ReadQuery, Reading, Consumer, File, opens, GzipFile, count_corrupted_line, stream_plain_lines,
  stream_plain_lines_async,
}
use seastar_log_engine.Reader.Lines.{stream_plain_lines_async-stream_plain_lines}
use seastar_log_engine.Reader.Archive.{IsPiece}
use seastar_log_engine.Reader.Query.{read_records, read_records_async}
use seastar_log_engine.Reader.Query.Found.{found, HasPieces, read_records-found}
use seastar_log_engine.Reader.Query.Reads.{read_records_async-read_records}

abbrev fresh : Reading
fresh = record {
  stats = record {
    segments_read = 0;
    archive_segments_read = 0;
    active_segments_read = 0;
    records_returned = 0;
    corrupted_segments = 0;
    corrupted_lines = 0;
    gzip_read_errors = 0;
  };
  alerts = [];
  records = [];
  segment_corrupted = false;
}

abbrev first_two : ReadQuery
first_two = record {
  shard = none;
  seq_from = none;
  seq_to = none;
  time_from = none;
  time_to = none;
  source_id = none;
  agent_id = none;
  limit = 2;
  include_archive = true;
  export_sink_batch = false;
}

abbrev halves : List Bytes
halves = codes "one\ntw" ∷ codes "o\nthree" ∷ []

abbrev archived_pieces : List Bytes
archived_pieces = codes "old\n" ∷ codes "cut" ∷ []

abbrev open_file : File
open_file = record { exists = true; opening = opens halves false }

abbrev file_of : Bytes → File
file_of path = open_file

-- A read of the archive fails behind its first line.
abbrev archive_of : Bytes → GzipFile
archive_of path = record { gzip_exists = true; gzip_opening = some (archived_pieces, true) }

abbrev segment_of : Bool → SegmentDescriptor
segment_of compressed = record {
  path = codes "a.log";
  shard_id = 0;
  archived = compressed;
  compressed = compressed;
  timestamp_ms = 0;
  rotation_index = 0;
}

abbrev both : List SegmentDescriptor
both = segment_of true ∷ segment_of false ∷ []

-- Stops at the line "two".
abbrev until_two : Consumer
until_two line r =
    if bytes_eq line (codes "two") then (false, count_corrupted_line r) else (true, r)

abbrev archived_pieces-IsPiece : All IsPiece archived_pieces
archived_pieces-IsPiece = (refl, (refl, tt))

read_records-found_example :
    (read_records file_of archive_of both first_two fresh).records
    ≡ take 2 (found file_of archive_of first_two both)
read_records-found_example =
    read_records-found file_of archive_of both first_two fresh
      (λ path. unfold HasPieces in archived_pieces-IsPiece)

read_records_async-read_records_example :
    read_records_async file_of archive_of both first_two fresh
    ≡ some (read_records file_of archive_of both first_two fresh)
read_records_async-read_records_example =
    read_records_async-read_records file_of archive_of
      (λ path. inr (halves, false, refl, (refl, (refl, tt)))) both first_two fresh

stream_plain_lines_async-stream_plain_lines_example :
    stream_plain_lines_async until_two open_file fresh
    ≡ some (stream_plain_lines until_two open_file fresh)
stream_plain_lines_async-stream_plain_lines_example =
    stream_plain_lines_async-stream_plain_lines until_two open_file fresh
      (inr (halves, false, refl, (refl, (refl, tt))))
