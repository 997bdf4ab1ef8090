-- ===== src/Reader/Query/Reads.antt =====
-- The two readers of src/log_reader.cc: `read_records_async` against `read_records`.
use seastar_log_engine.Prelude.{◌==◌, Bool-cases, ◌≡◌, refl, inl, inr, some, List, [], ◌∷◌, Bytes}
use seastar_log_engine.Layout.{SegmentDescriptor}
use seastar_log_engine.Reader.{ReadQuery, Reading, Consumer, consume_line, File, GzipFile}
use seastar_log_engine.Reader.Lines.{IsSteady, stream_plain_lines_async-stream_plain_lines}
use seastar_log_engine.Reader.Query.{
  count_segment, end_of_segment, stream_segment_lines, stream_segment_lines_async, read_segment,
  read_segments, read_segments_async, read_records, read_records_async,
}

module _ (files : Bytes → File) (archives : Bytes → GzipFile)
    (steady : (path : Bytes) → IsSteady (files path)) where
  stream_segment_lines_async-stream_segment_lines :
      (segment : SegmentDescriptor) (consume : Consumer) (r : Reading)
      → stream_segment_lines_async files archives segment consume r
        ≡ some (stream_segment_lines files archives segment consume r)
  unfolding stream_segment_lines_async stream_segment_lines
  stream_segment_lines_async-stream_segment_lines segment consume r =
      elim (Bool-cases segment.compressed) [
        | inl zipped ↦ rw zipped refl
        | inr plain ↦ rw plain (
            stream_plain_lines_async-stream_plain_lines consume (files segment.path) r
              (steady segment.path))
      ]

  read_segments_async-read_segments :
      (query : ReadQuery) (segments : List SegmentDescriptor) (r : Reading)
      → read_segments_async files archives query segments r
        ≡ some (read_segments files archives query segments r)
  unfolding read_segments_async read_segments read_segment
  read_segments_async-read_segments query [] r = refl
  read_segments_async-read_segments query (segment ∷ segments) r =
      let counted = count_segment segment r in
      let streamed = stream_segment_lines files archives segment (consume_line query) counted in
      rw
        (
          read_segments_async,
          stream_segment_lines_async-stream_segment_lines segment (consume_line query) counted,
        )
        (elim (Bool-cases (end_of_segment streamed).0) [
          | inl on ↦
              rw (read_segments, on)
                (read_segments_async-read_segments query segments (end_of_segment streamed).1)
          | inr off ↦ rw (read_segments, off) refl
        ])

-- When every file is open or missing throughout and its reads give bytes until the last one, the
-- asynchronous query does not throw: it has the same records, counters and calls of the health
-- monitor as the other.
pub read_records_async-read_records :
    (files : Bytes → File) (archives : Bytes → GzipFile)
    (steady : (path : Bytes) → IsSteady (files path)) (segments : List SegmentDescriptor)
    (query : ReadQuery) (r : Reading)
    → read_records_async files archives segments query r
      ≡ some (read_records files archives segments query r)
unfolding read_records_async read_records
read_records_async-read_records files archives steady segments query r =
    elim (Bool-cases (query.limit == 0)) [
      | inl e ↦ rw e refl
      | inr e ↦ rw e (
          read_segments_async-read_segments files archives steady query segments
            (record r { records = [] }))
    ]
