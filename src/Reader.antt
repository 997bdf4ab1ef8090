-- ===== src/Reader.antt =====
-- src/log_reader.cc: the lines of a segment, read whole, in pieces or from a gzip archive, and the
-- query over segments. What a file, a read of it or zlib gives is an argument.
pub mod Lines
pub mod Archive
pub mod Query
pub mod Tests
use seastar_log_engine.Prelude.{
  ℕ, ◌+◌, ◌%◌, Bool, true, false, not, ◌&&◌, ◌||◌, Option, none, some, List, [], ◌∷◌, ◌++◌, Bytes,
  bytes_lt, bytes_eq, length, is_empty, ltb, ◌==◌, if◌then◌else◌, ◌>>=◌, u64_modulus,
}
use seastar_log_engine.Codec.Record.{ParsedRecord, parse_record_line}
use seastar_log_engine.Layout.{SegmentDescriptor}
use seastar_log_engine.Recovery.Stream.Whole.{join_chunks}

pub record ReadQuery : Type 0 where
  pub shard : Option ℕ
  pub seq_from : Option ℕ
  pub seq_to : Option ℕ
  pub time_from : Option Bytes
  pub time_to : Option Bytes
  pub source_id : Option Bytes
  pub agent_id : Option Bytes
  pub limit : ℕ
  pub include_archive : Bool
  pub export_sink_batch : Bool

pub record ReaderStats : Type 0 where
  pub segments_read : ℕ
  pub archive_segments_read : ℕ
  pub active_segments_read : ℕ
  pub records_returned : ℕ
  pub corrupted_segments : ℕ
  pub corrupted_lines : ℕ
  pub gzip_read_errors : ℕ

pub record StreamResult : Type 0 where
  pub stopped_early : Bool
  pub read_error : Bool
  pub file_missing : Bool

-- The calls of the health monitor.
pub data Alert : Type 0 where
  corrupted_line : Alert
  corrupted_segment : Alert
  gzip_read_error : Alert

-- The state of a query: the global counters, the calls of the health monitor with the last one first,
-- and the variables `records` and `segment_corrupted`.
pub record Reading : Type 0 where
  pub stats : ReaderStats
  pub alerts : List Alert
  pub records : List ParsedRecord
  pub segment_corrupted : Bool

-- A test of `matches_record_query` that an absent bound skips.
unfoldable pub unless_bound {ℓ} : {A : Type ℓ} → Option A → (A → Bool) → Bool
unless_bound none test = true
unless_bound (some bound) test = test bound

unfoldable pub matches_record_query : ParsedRecord → ReadQuery → Bool
matches_record_query r query =
    unless_bound query.seq_from (λ bound. r.has_sequence && not (ltb r.sequence bound))
    && unless_bound query.seq_to (λ bound. r.has_sequence && not (ltb bound r.sequence))
    && unless_bound query.time_from
        (λ bound. not (is_empty r.timestamp) && not (bytes_lt r.timestamp bound))
    && unless_bound query.time_to
        (λ bound. not (is_empty r.timestamp) && not (bytes_lt bound r.timestamp))
    && unless_bound query.source_id (λ bound. bytes_eq r.source_id bound)
    && unless_bound query.agent_id (λ bound. bytes_eq r.agent_id bound)

-- `++` on a 64-bit counter.
pub increment : ℕ → ℕ
increment n = (n + 1) % u64_modulus

pub count_corrupted_line : Reading → Reading
count_corrupted_line r = record r {
  stats = record r.stats { corrupted_lines = increment r.stats.corrupted_lines };
  alerts = corrupted_line ∷ r.alerts;
  segment_corrupted = true;
}

pub count_gzip_read_error : Reading → Reading
count_gzip_read_error r = record r {
  stats = record r.stats { gzip_read_errors = increment r.stats.gzip_read_errors };
  alerts = gzip_read_error ∷ r.alerts;
}

pub push_record : ParsedRecord → Reading → Reading
push_record parsed r = record r {
  stats = record r.stats { records_returned = increment r.stats.records_returned };
  records = r.records ++ parsed ∷ [];
}

pub consume_parsed : ReadQuery → ParsedRecord → Reading → Bool × Reading
consume_parsed query parsed r =
    if matches_record_query parsed query
    then (ltb (length (push_record parsed r).records) query.limit, push_record parsed r)
    else (true, r)

-- The lambda `consume_line`: whether to go on, and the state.
pub consume_line : ReadQuery → Bytes → Reading → Bool × Reading
consume_line query line r = elim (parse_record_line line) [
  | none ↦ (false, count_corrupted_line r)
  | some parsed ↦ consume_parsed query parsed r
]

-- What a file on disk gives: at the test whether it exists, at its opening, and at the reads. `opens`
-- has the buffers that are read, and whether the reads end by a failure.
pub data Opening : Type 0 where
  opens : List Bytes → Bool → Opening
  not_found : Opening
  refused : Opening

pub record File : Type 0 where
  pub exists : Bool
  pub opening : Opening

abbrev pub Consumer : Type 0
Consumer = Bytes → Reading → Bool × Reading

abbrev pub Streamed : Type 0
Streamed = StreamResult × Reading

pub finished : Bool → StreamResult
finished failed = record { stopped_early = false; read_error = failed; file_missing = false }

pub stopped : StreamResult
stopped = record { stopped_early = true; read_error = false; file_missing = false }

pub missing : StreamResult
missing = record { stopped_early = false; read_error = true; file_missing = true }

-- After the last line, which no line end follows.
pub last_line : Consumer → Bytes → Reading → Streamed
last_line consume line r =
    if is_empty line
    then (finished false, r)
    else if (consume line r).0
    then (finished false, (consume line r).1)
    else (stopped, (consume line r).1)

-- The loop over `std::getline`; `line` holds the bytes of the line begun. A line that a failure cuts
-- is dropped.
pub getline_loop : Consumer → Bool → Bytes → Bytes → Reading → Streamed
getline_loop consume failed line [] r =
    if failed then (finished true, r) else last_line consume line r
getline_loop consume failed line (c ∷ bytes) r = elim (c == b'\n') [
  | false ↦ getline_loop consume failed (line ++ c ∷ []) bytes r
  | true ↦ elim (consume line r).0 [
    | false ↦ (stopped, (consume line r).1)
    | true ↦ getline_loop consume failed [] bytes (consume line r).1
  ]
]

-- A stream on a file that cannot be opened fails at its first read.
pub read_opening : Consumer → Opening → Reading → Streamed
read_opening consume (opens buffers failed) r =
    getline_loop consume failed [] (join_chunks buffers) r
read_opening consume not_found r = (finished true, r)
read_opening consume refused r = (finished true, r)

pub stream_plain_lines : Consumer → File → Reading → Streamed
stream_plain_lines consume file r =
    if file.exists then read_opening consume file.opening r else (missing, r)

-- After a buffer: the consumer has stopped, or the loop goes on with `pending`.
pub data BufferResult : Type 0 where
  stopped_at : Reading → BufferResult
  more_of : Bytes → Reading → BufferResult

-- A whole line: the bytes of the buffer alone, or behind the bytes that are pending.
pub joined_line : Bytes → Bytes → Bytes
joined_line pending run = if is_empty pending then run else pending ++ run

-- The loop over a buffer; `run` holds the bytes from `begin` on.
pub scan_buffer : Consumer → Bytes → Bytes → Bytes → Reading → BufferResult
scan_buffer consume pending run [] r = more_of (pending ++ run) r
scan_buffer consume pending run (c ∷ buffer) r = elim (c == b'\n') [
  | false ↦ scan_buffer consume pending (run ++ c ∷ []) buffer r
  | true ↦ elim (consume (joined_line pending run) r).0 [
    | false ↦ stopped_at (consume (joined_line pending run) r).1
    | true ↦ scan_buffer consume [] [] buffer (consume (joined_line pending run) r).1
  ]
]

-- The loop over the reads, which an empty buffer ends, and what comes after it.
pub scan_buffers : Consumer → Bool → Bytes → List Bytes → Reading → Streamed
scan_buffers consume failed pending [] r =
    if failed then (finished true, r) else last_line consume pending r
scan_buffers consume failed pending ([] ∷ buffers) r = last_line consume pending r
scan_buffers consume failed pending ((c ∷ buffer) ∷ buffers) r =
    elim (scan_buffer consume pending [] (c ∷ buffer) r) [
      | stopped_at r ↦ (stopped, r)
      | more_of pending r ↦ scan_buffers consume failed pending buffers r
    ]

pub read_opening_async : Consumer → Opening → Reading → Option Streamed
read_opening_async consume (opens buffers failed) r =
    some (scan_buffers consume failed [] buffers r)
read_opening_async consume not_found r = some (missing, r)
read_opening_async consume refused r = none

pub stream_plain_lines_async : Consumer → File → Reading → Option Streamed
stream_plain_lines_async consume file r =
    if file.exists then read_opening_async consume file.opening r else some (missing, r)

-- What zlib gives: `gzopen` fails, or the buffers of `gzgets`, and whether `gzerror` has an error.
pub record GzipFile : Type 0 where
  pub gzip_exists : Bool
  pub gzip_opening : Option (List Bytes × Bool)

-- The bytes in front of the first byte 0, which `strlen` counts.
pub c_string : Bytes → Bytes
c_string [] = []
c_string (c ∷ bytes) = if c == 0 then [] else c ∷ c_string bytes

pub ends_with_newline : Bytes → Bool
ends_with_newline [] = false
ends_with_newline (c ∷ []) = c == b'\n'
ends_with_newline (c ∷ d ∷ bytes) = ends_with_newline (d ∷ bytes)

-- `pop_back`.
pub pop_back : Bytes → Bytes
pop_back [] = []
pop_back (c ∷ []) = []
pop_back (c ∷ d ∷ bytes) = c ∷ pop_back (d ∷ bytes)

pub end_of_archive : Consumer → Bool → Bytes → Reading → Streamed
end_of_archive consume failed line r =
    if failed then (finished true, count_gzip_read_error r) else last_line consume line r

-- The loop over `gzgets`.
pub gzgets_loop : Consumer → Bool → Bytes → List Bytes → Reading → Streamed
gzgets_loop consume failed line [] r = end_of_archive consume failed line r
gzgets_loop consume failed line (buffer ∷ buffers) r = elim (ends_with_newline (c_string buffer)) [
  | false ↦ gzgets_loop consume failed (line ++ c_string buffer) buffers r
  | true ↦ elim (consume (pop_back (line ++ c_string buffer)) r).0 [
    | false ↦ (stopped, (consume (pop_back (line ++ c_string buffer)) r).1)
    | true ↦
        gzgets_loop consume failed [] buffers (consume (pop_back (line ++ c_string buffer)) r).1
  ]
]

pub read_archive : Consumer → Option (List Bytes × Bool) → Reading → Streamed
read_archive consume none r = (finished true, count_gzip_read_error r)
read_archive consume (some archive) r = gzgets_loop consume archive.1 [] archive.0 r

pub stream_gzip_lines : Consumer → GzipFile → Reading → Streamed
stream_gzip_lines consume file r =
    if file.gzip_exists then read_archive consume file.gzip_opening r else (missing, r)
