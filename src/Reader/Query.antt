-- ===== src/Reader/Query.antt =====
-- The query over segments in src/log_reader.cc: `read_records_from_segments` and its twin over
-- asynchronous reads, with the functions that call them. The files of a path are arguments.
pub mod Selection
pub mod Found
pub mod Reads
use seastar_log_engine.Prelude.{
  ℕ, Bool, true, false, ◌||◌, Option, none, some, List, [], ◌∷◌, Bytes, ◌==◌, if◌then◌else◌, ◌>>=◌,
}
use seastar_log_engine.Config.{EngineConfig}
use seastar_log_engine.Codec.Record.{ParsedRecord}
use seastar_log_engine.Layout.{SegmentDescriptor, collect_query_segments}
use seastar_log_engine.Reader.{
  ReadQuery, ReaderStats, StreamResult, Reading, Alert, corrupted_segment, increment, consume_line,
  Consumer, Streamed, File, GzipFile, stream_plain_lines, stream_plain_lines_async,
  stream_gzip_lines,
}

-- The start of the round for a segment.
pub count_segment : SegmentDescriptor → Reading → Reading
count_segment segment r = record r {
  stats = record r.stats {
    segments_read = increment r.stats.segments_read;
    archive_segments_read =
        if segment.archived
        then increment r.stats.archive_segments_read
        else r.stats.archive_segments_read;
    active_segments_read =
        if segment.archived
        then r.stats.active_segments_read
        else increment r.stats.active_segments_read;
  };
  segment_corrupted = false;
}

pub count_corrupted_segment : Reading → Reading
count_corrupted_segment r = record r {
  stats = record r.stats { corrupted_segments = increment r.stats.corrupted_segments };
  alerts = corrupted_segment ∷ r.alerts;
}

-- The end of the round: whether the loop goes on to the next segment, and the state.
pub end_of_segment : Streamed → Bool × Reading
end_of_segment (result, r) =
    if result.file_missing
    then (true, r)
    else if r.segment_corrupted || result.read_error
    then (true, count_corrupted_segment r)
    else if result.stopped_early
    then (false, r)
    else (true, r)

-- The files, by their paths.
module _ (files : Bytes → File) (archives : Bytes → GzipFile) where
  pub stream_segment_lines : SegmentDescriptor → Consumer → Reading → Streamed
  stream_segment_lines segment consume r =
      if segment.compressed
      then stream_gzip_lines consume (archives segment.path) r
      else stream_plain_lines consume (files segment.path) r

  pub read_segment : ReadQuery → SegmentDescriptor → Reading → Bool × Reading
  read_segment query segment r =
      end_of_segment (stream_segment_lines segment (consume_line query) (count_segment segment r))

  -- The loop over the segments.
  pub read_segments : ReadQuery → List SegmentDescriptor → Reading → Reading
  read_segments query [] r = r
  read_segments query (segment ∷ segments) r = elim (read_segment query segment r).0 [
    | true ↦ read_segments query segments (read_segment query segment r).1
    | false ↦ (read_segment query segment r).1
  ]

  -- The state before has the counters, and no records.
  pub read_records : List SegmentDescriptor → ReadQuery → Reading → Reading
  read_records segments query r =
      if query.limit == 0
      then record r { records = [] }
      else read_segments query segments (record r { records = [] })

  pub stream_segment_lines_async : SegmentDescriptor → Consumer → Reading → Option Streamed
  stream_segment_lines_async segment consume r =
      if segment.compressed
      then some (stream_gzip_lines consume (archives segment.path) r)
      else stream_plain_lines_async consume (files segment.path) r

  -- `none` is an exception of a read.
  pub read_segments_async : ReadQuery → List SegmentDescriptor → Reading → Option Reading
  read_segments_async query [] r = some r
  read_segments_async query (segment ∷ segments) r =
      elim (stream_segment_lines_async segment (consume_line query) (count_segment segment r)) [
        | none ↦ none
        | some streamed ↦ elim (end_of_segment streamed).0 [
          | true ↦ read_segments_async query segments (end_of_segment streamed).1
          | false ↦ some (end_of_segment streamed).1
        ]
      ]

  pub read_records_async : List SegmentDescriptor → ReadQuery → Reading → Option Reading
  read_records_async segments query r =
      if query.limit == 0
      then some (record r { records = [] })
      else read_segments_async query segments (record r { records = [] })

-- The names in the two directories are arguments.
unfoldable pub collect_segments :
    EngineConfig → ReadQuery → List Bytes → List Bytes → List SegmentDescriptor
collect_segments config query log_directory archive_directory =
    collect_query_segments config log_directory archive_directory query.shard query.include_archive

-- `reset_reader_stats`.
pub reset_reader_stats : Reading → Reading
reset_reader_stats r = record r {
  stats = record {
    segments_read = 0;
    archive_segments_read = 0;
    active_segments_read = 0;
    records_returned = 0;
    corrupted_segments = 0;
    corrupted_lines = 0;
    gzip_read_errors = 0;
  };
}
