-- ===== src/Reader/Query/Found.antt =====
-- What a query finds: `read_records` of src/log_reader.cc against the records of the segments' lines.
use mathlib.Core.Path.{subst}
use seastar_log_engine.Prelude.{
  ℕ, ◌≤◌, ◌<◌, zero, suc, Bool, true, false, Bool-cases, ◌≡◌, refl, sym, ap, ◌∙◌, inl, inr, Option,
  none, some, List, [], ◌∷◌, ◌++◌, Bytes, length, take, ◌==◌, if◌then◌else◌, append-nil,
  append_assoc, length-append, arith, All,
}
use seastar_log_engine.Codec.Record.{ParsedRecord}
use seastar_log_engine.Layout.{SegmentDescriptor}
use seastar_log_engine.Recovery.Stream.Whole.{join_chunks}
use seastar_log_engine.Reader.{
  ReadQuery, Reading, Streamed, consume_line, File, GzipFile, Opening, opens, not_found, refused,
  stream_plain_lines, stream_gzip_lines, read_opening, read_archive, missing, finished,
  count_gzip_read_error,
}
use seastar_log_engine.Reader.Lines.{begun_lines, fold_lines, getline_loop-outcome}
use seastar_log_engine.Reader.Archive.{IsPiece, gzgets_loop-outcome}
use seastar_log_engine.Reader.Query.{
  count_segment, end_of_segment, stream_segment_lines, read_segment, read_segments, read_records,
}
use seastar_log_engine.Reader.Query.Selection.{
  readable, matching, selected, Advance, below, at_limit, missing-Advance, finished-Advance,
  outcome-Advance, archive_outcome-Advance, fold_lines-Folded,
}

pub opening_lines : Opening → List Bytes
opening_lines (opens buffers failed) = begun_lines failed [] (join_chunks buffers)
opening_lines not_found = []
opening_lines refused = []

pub archive_lines : Option (List Bytes × Bool) → List Bytes
archive_lines none = []
archive_lines (some archive) = begun_lines archive.1 [] (join_chunks archive.0)

-- The pieces of an archive have no byte 0, and no line end but at their ends.
unfoldable pub HasPieces : Option (List Bytes × Bool) → Type 0
HasPieces none = Unit
HasPieces (some archive) = All IsPiece archive.0

-- A round from a state with these records, over these lines.
pub Rounds : ReadQuery → List Bytes → Reading → Streamed → Type 0
Rounds query lines r streamed =
    Advance query.limit (r.records ++ selected query lines) (end_of_segment streamed)

module _ (query : ReadQuery) (r : Reading) (clean : r.segment_corrupted ≡ false)
    (few : length r.records < query.limit) where
  unread-Rounds :
      (s : Reading)
      → s.segment_corrupted ≡ false
      → s.records ≡ r.records
      → Rounds query [] r (finished true, s)
  unfolding Rounds selected readable matching
  unread-Rounds s still same =
      finished-Advance query.limit (r.records ++ []) true s still
        (same ∙ sym (append-nil r.records)) (omega (arith, few, length-append r.records []))

  read_opening-Rounds :
      (opening : Opening)
      → Rounds query (opening_lines opening) r (read_opening (consume_line query) opening r)
  unfolding Rounds opening_lines read_opening
  read_opening-Rounds (opens buffers failed) =
      let bytes = join_chunks buffers in
      let lines = begun_lines failed [] bytes in
      subst (Rounds query lines r)
        (sym (getline_loop-outcome (consume_line query) failed [] bytes r))
        (outcome-Advance query.limit (r.records ++ selected query lines) failed
          (fold_lines (consume_line query) lines r) (fold_lines-Folded query lines r clean few))
  read_opening-Rounds not_found = unread-Rounds r clean refl
  read_opening-Rounds refused = unread-Rounds r clean refl

  read_archive-Rounds :
      (opening : Option (List Bytes × Bool))
      → HasPieces opening
      → Rounds query (archive_lines opening) r (read_archive (consume_line query) opening r)
  unfolding Rounds archive_lines read_archive HasPieces count_gzip_read_error
  read_archive-Rounds none pieces = unread-Rounds (count_gzip_read_error r) clean refl
  read_archive-Rounds (some (buffers, failed)) pieces =
      let bytes = join_chunks buffers in
      let lines = begun_lines failed [] bytes in
      subst (Rounds query lines r)
        (sym (gzgets_loop-outcome (consume_line query) failed [] buffers r pieces))
        (archive_outcome-Advance query.limit (r.records ++ selected query lines) failed
          (fold_lines (consume_line query) lines r) (fold_lines-Folded query lines r clean few))

  missing-Rounds : Rounds query [] r (missing, r)
  unfolding Rounds selected readable matching
  missing-Rounds = missing-Advance query.limit r few

take-enough : (n : ℕ) (xs ys : List ParsedRecord) → n ≤ length xs → take n (xs ++ ys) ≡ take n xs
take-enough zero xs ys h = refl
take-enough (suc n) [] ys h = absurd (omega (arith, h))
take-enough (suc n) (x ∷ xs) ys h = ap (λ l. x ∷ l) (take-enough n xs ys (omega (arith, h)))

take-within : (n : ℕ) (xs : List ParsedRecord) → length xs < n → take n (xs ++ []) ≡ xs
take-within zero xs h = absurd (omega (arith, h))
take-within (suc n) [] h = refl
take-within (suc n) (x ∷ xs) h = ap (λ l. x ∷ l) (take-within n xs (omega (arith, h)))

-- The lines of a segment, with its files.
module _ (files : Bytes → File) (archives : Bytes → GzipFile) where
  pub segment_lines : SegmentDescriptor → List Bytes
  segment_lines segment =
      if segment.compressed
      then if (archives segment.path).gzip_exists
        then archive_lines (archives segment.path).gzip_opening
        else []
      else if (files segment.path).exists
      then opening_lines (files segment.path).opening
      else []

  -- What the segments have: of each, the records that match in front of its first bad line.
  unfoldable pub found : ReadQuery → List SegmentDescriptor → List ParsedRecord
  found query [] = []
  found query (segment ∷ segments) =
      matching query (readable (segment_lines segment)) ++ found query segments

  module _ (pieces : (path : Bytes) → HasPieces (archives path).gzip_opening) where
    stream_segment_lines-Rounds :
        (query : ReadQuery) (segment : SegmentDescriptor) (r : Reading)
        → r.segment_corrupted ≡ false
        → length r.records < query.limit
        → Rounds query
            (segment_lines segment)
            r
            (stream_segment_lines files archives segment (consume_line query) r)
    unfolding segment_lines stream_segment_lines stream_plain_lines stream_gzip_lines
    stream_segment_lines-Rounds query segment r clean few =
        let file = files segment.path in
        let archive = archives segment.path in
        let gone = missing-Rounds query r clean few in
        elim (Bool-cases segment.compressed) [
          | inl zipped ↦ rw (zipped) (elim (Bool-cases archive.gzip_exists) [
            | inl here ↦
                rw here
                  (read_archive-Rounds query r clean few archive.gzip_opening (pieces segment.path))
            | inr none_here ↦ rw none_here gone
          ])
          | inr plain ↦ rw plain (elim (Bool-cases file.exists) [
            | inl here ↦ rw here (read_opening-Rounds query r clean few file.opening)
            | inr none_here ↦ rw none_here gone
          ])
        ]

    read_segment-Advance :
        (query : ReadQuery) (segment : SegmentDescriptor) (r : Reading)
        → length r.records < query.limit
        → Advance query.limit
            (r.records ++ selected query (segment_lines segment))
            (read_segment files archives query segment r)
    unfolding read_segment count_segment Rounds
    read_segment-Advance query segment r few =
        stream_segment_lines-Rounds query segment (count_segment segment r) refl few

    read_segments-found :
        (query : ReadQuery) (segments : List SegmentDescriptor) (r : Reading)
        → length r.records < query.limit
        → (read_segments files archives query segments r).records
          ≡ take query.limit (r.records ++ found query segments)
    unfolding read_segments found selected
    read_segments-found query [] r few = sym (take-within query.limit r.records few)
    read_segments-found query (segment ∷ segments) r few =
        let step = read_segment files archives query segment r in
        let here = selected query (segment_lines segment) in
        let assoc = append_assoc r.records here (found query segments) in
        elim (read_segment-Advance query segment r few) [
          | below on same more ↦
              rw (read_segments, on)
                (read_segments-found query segments step.1
                    (subst (λ l. length l < query.limit) (sym same) more)
                  ∙ ap (λ l. take query.limit (l ++ found query segments)) same)
              ∙ ap (take query.limit) assoc
          | at_limit off same enough ↦
              rw (read_segments, off) same
              ∙ sym (take-enough query.limit (r.records ++ here) (found query segments) enough)
              ∙ ap (take query.limit) assoc
        ]

-- A query returns, in the order of the segments, the records that match in front of the first bad
-- line of each segment, and of these as many as its limit allows. A segment that is missing, cannot be
-- opened or fails does not end the query; of one whose reads fail, the whole lines before it count.
-- What zlib gives of an archive has no byte 0.
pub read_records-found :
    (files : Bytes → File) (archives : Bytes → GzipFile) (segments : List SegmentDescriptor)
    (query : ReadQuery) (r : Reading)
    (pieces : (path : Bytes) → HasPieces (archives path).gzip_opening)
    → (read_records files archives segments query r).records
      ≡ take query.limit (found files archives query segments)
unfolding read_records
read_records-found files archives segments query r pieces = elim (Bool-cases (query.limit == 0)) [
  | inl e ↦
      let none_wanted : query.limit ≡ 0 = ground (arith, e) in
      rw (e) (sym (ap (λ n. take n (found files archives query segments)) none_wanted))
  | inr e ↦ rw e (
      read_segments-found files archives pieces query segments (record r { records = [] })
        (ground (arith, e)))
]
