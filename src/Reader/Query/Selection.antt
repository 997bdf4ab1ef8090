-- ===== src/Reader/Query/Selection.antt =====
-- `consume_line` of src/log_reader.cc on one line after the other, and the end of a segment.
use mathlib.Core.Path.{subst}
use seastar_log_engine.Prelude.{
  ℕ, suc, ◌≤◌, ◌<◌, Bool, true, false, Bool-cases, Option-cases, ◌≡◌, refl, sym, ap, ◌∙◌, inl, inr,
  none, some, List, [], ◌∷◌, ◌++◌, Bytes, length, take, ltb, append-nil, append_assoc,
  length-append, take-length-append, arith,
}
use seastar_log_engine.Codec.Record.{ParsedRecord, parse_record_line}
use seastar_log_engine.Reader.{
  ReadQuery, Reading, matches_record_query, consume_line, consume_parsed, push_record,
  count_corrupted_line, count_gzip_read_error, finished, stopped, missing,
}
use seastar_log_engine.Reader.Lines.{fold_lines, fold_lines-on, fold_lines-stop, outcome}
use seastar_log_engine.Reader.Archive.{archive_outcome}
use seastar_log_engine.Reader.Query.{end_of_segment, count_corrupted_segment}

-- The records of the lines in front of the first line that is none.
unfoldable pub readable : List Bytes → List ParsedRecord
readable [] = []
readable (line ∷ lines) = elim (parse_record_line line) [
  | none ↦ []
  | some parsed ↦ parsed ∷ readable lines
]

-- The records that match.
unfoldable pub matching : ReadQuery → List ParsedRecord → List ParsedRecord
matching query [] = []
matching query (parsed ∷ records) = elim (matches_record_query parsed query) [
  | true ↦ parsed ∷ matching query records
  | false ↦ matching query records
]

-- How a run over lines ends: all are read; or a line is none; or the limit is reached.
pub data Folded (limit : ℕ) (found : List ParsedRecord) (x : Bool × Reading) : Type 0 where
  all_read :
      x.0 ≡ true
      → x.1.segment_corrupted ≡ false
      → x.1.records ≡ found
      → length found < limit
      → Folded limit found x
  damaged :
      x.0 ≡ false
      → x.1.segment_corrupted ≡ true
      → x.1.records ≡ found
      → length found < limit
      → Folded limit found x
  filled :
      x.0 ≡ false
      → x.1.segment_corrupted ≡ false
      → x.1.records ≡ take limit found
      → limit ≤ length found
      → Folded limit found x

-- How a segment ends: the loop goes on below the limit, or ends at it.
pub data Advance (limit : ℕ) (found : List ParsedRecord) (x : Bool × Reading) : Type 0 where
  below : x.0 ≡ true → x.1.records ≡ found → length found < limit → Advance limit found x
  at_limit :
      x.0 ≡ false → x.1.records ≡ take limit found → limit ≤ length found → Advance limit found x

ap-length :
    {xs ys : List ParsedRecord} {limit : ℕ} → xs ≡ ys → length xs < limit → length ys < limit
ap-length {limit = limit} e few = subst (λ l. length l < limit) e few

pub missing-Advance :
    (limit : ℕ) (r : Reading)
    → length r.records < limit
    → Advance limit (r.records ++ []) (end_of_segment (missing, r))
unfolding end_of_segment missing
missing-Advance limit r few =
    below refl (sym (append-nil r.records)) (ap-length (sym (append-nil r.records)) few)

-- The end of a segment that is read to its end, with or without a failure.
pub finished-Advance :
    (limit : ℕ) (found : List ParsedRecord) (failed : Bool) (r : Reading)
    → r.segment_corrupted ≡ false
    → r.records ≡ found
    → length found < limit
    → Advance limit found (end_of_segment (finished failed, r))
unfolding end_of_segment finished count_corrupted_segment
finished-Advance limit found true r clean same few =
    rw (end_of_segment, clean) (below refl same few)
finished-Advance limit found false r clean same few =
    rw (end_of_segment, clean) (below refl same few)

stopped-Advance :
    (limit : ℕ) (found : List ParsedRecord) (r : Reading)
    → Folded limit found (false, r)
    → Advance limit found (end_of_segment (stopped, r))
unfolding end_of_segment stopped count_corrupted_segment
stopped-Advance limit found r (all_read on clean same few) = absurd (cc on)
stopped-Advance limit found r (damaged on bad same few) =
    rw (end_of_segment, bad) (below refl same few)
stopped-Advance limit found r (filled on clean same full) =
    rw (end_of_segment, clean) (at_limit refl same full)

pub outcome-Advance :
    (limit : ℕ) (found : List ParsedRecord) (failed : Bool) (x : Bool × Reading)
    → Folded limit found x
    → Advance limit found (end_of_segment (outcome failed x))
unfolding outcome
outcome-Advance limit found failed (true, r) (all_read on clean same few) =
    finished-Advance limit found failed r clean same few
outcome-Advance limit found failed (true, r) (damaged on bad same few) = absurd (cc on)
outcome-Advance limit found failed (true, r) (filled on clean same full) = absurd (cc on)
outcome-Advance limit found failed (false, r) folded = stopped-Advance limit found r folded

pub archive_outcome-Advance :
    (limit : ℕ) (found : List ParsedRecord) (failed : Bool) (x : Bool × Reading)
    → Folded limit found x
    → Advance limit found (end_of_segment (archive_outcome failed x))
unfolding archive_outcome count_gzip_read_error
archive_outcome-Advance limit found true (true, r) (all_read on clean same few) =
    finished-Advance limit found true (count_gzip_read_error r) clean same few
archive_outcome-Advance limit found false (true, r) (all_read on clean same few) =
    finished-Advance limit found false r clean same few
archive_outcome-Advance limit found failed (true, r) (damaged on bad same few) = absurd (cc on)
archive_outcome-Advance limit found failed (true, r) (filled on clean same full) = absurd (cc on)
archive_outcome-Advance limit found failed (false, r) folded = stopped-Advance limit found r folded

unfoldable pub selected : ReadQuery → List Bytes → List ParsedRecord
selected query lines = matching query (readable lines)

selected-none :
    (query : ReadQuery) (line : Bytes) (lines : List Bytes)
    → parse_record_line line ≡ none
    → selected query (line ∷ lines) ≡ []
unfolding selected readable matching
selected-none query line lines e = rw (readable, e) refl

selected-match :
    (query : ReadQuery) (line : Bytes) (lines : List Bytes) (parsed : ParsedRecord)
    → parse_record_line line ≡ some parsed
    → matches_record_query parsed query ≡ true
    → selected query (line ∷ lines) ≡ parsed ∷ selected query lines
unfolding selected readable matching
selected-match query line lines parsed e k = rw (readable, e) (rw (matching, k) refl)

selected-other :
    (query : ReadQuery) (line : Bytes) (lines : List Bytes) (parsed : ParsedRecord)
    → parse_record_line line ≡ some parsed
    → matches_record_query parsed query ≡ false
    → selected query (line ∷ lines) ≡ selected query lines
unfolding selected readable matching
selected-other query line lines parsed e k = rw (readable, e) (rw (matching, k) refl)

consume_line-none :
    (query : ReadQuery) (line : Bytes) (r : Reading)
    → parse_record_line line ≡ none
    → consume_line query line r ≡ (false, count_corrupted_line r)
unfolding consume_line
consume_line-none query line r e = rw (consume_line, e) refl

consume_line-match :
    (query : ReadQuery) (line : Bytes) (r : Reading) (parsed : ParsedRecord)
    → parse_record_line line ≡ some parsed
    → matches_record_query parsed query ≡ true
    → consume_line query line r
      ≡ (ltb (length (r.records ++ parsed ∷ [])) query.limit, push_record parsed r)
unfolding consume_line consume_parsed push_record
consume_line-match query line r parsed e k = rw (consume_line, e) (rw (consume_parsed, k) refl)

consume_line-other :
    (query : ReadQuery) (line : Bytes) (r : Reading) (parsed : ParsedRecord)
    → parse_record_line line ≡ some parsed
    → matches_record_query parsed query ≡ false
    → consume_line query line r ≡ (true, r)
unfolding consume_line consume_parsed
consume_line-other query line r parsed e k = rw (consume_line, e) (rw (consume_parsed, k) refl)

fold_lines-first :
    (query : ReadQuery) (line : Bytes) (lines : List Bytes) (r s : Reading)
    → consume_line query line r ≡ (true, s)
    → fold_lines (consume_line query) (line ∷ lines) r ≡ fold_lines (consume_line query) lines s
fold_lines-first query line lines r s e =
    fold_lines-on (consume_line query) line lines r (ap (λ x. x.0) e)
    ∙ ap (λ x. fold_lines (consume_line query) lines x.1) e

fold_lines-last :
    (query : ReadQuery) (line : Bytes) (lines : List Bytes) (r s : Reading)
    → consume_line query line r ≡ (false, s)
    → fold_lines (consume_line query) (line ∷ lines) r ≡ (false, s)
fold_lines-last query line lines r s e =
    fold_lines-stop (consume_line query) line lines r (ap (λ x. x.0) e) ∙ ap (λ x. (false, x.1)) e

Folded-along :
    {limit : ℕ} {found found' : List ParsedRecord} {x x' : Bool × Reading}
    → x' ≡ x
    → found' ≡ found
    → Folded limit found x
    → Folded limit found' x'
Folded-along {limit = limit} {found' = found'} {x = x} e k folded =
    subst (λ y. Folded limit found' y) (sym e) (subst (λ f. Folded limit f x) (sym k) folded)

-- A record that matches: below the limit the loop goes on, and at the limit it stops.
push-Folded :
    (query : ReadQuery) (line : Bytes) (lines : List Bytes) (r : Reading) (parsed : ParsedRecord)
    → consume_line query line r
      ≡ (ltb (length (r.records ++ parsed ∷ [])) query.limit, push_record parsed r)
    → r.segment_corrupted ≡ false
    → length r.records < query.limit
    → (length (r.records ++ parsed ∷ []) < query.limit
        → Folded query.limit
            ((r.records ++ parsed ∷ []) ++ selected query lines)
            (fold_lines (consume_line query) lines (push_record parsed r)))
    → Folded query.limit
        ((r.records ++ parsed ∷ []) ++ selected query lines)
        (fold_lines (consume_line query) (line ∷ lines) r)
unfolding push_record
push-Folded query line lines r parsed e clean few later =
    let records = r.records ++ parsed ∷ [] in
    let found = records ++ selected query lines in
    let one_more : length records ≡ suc (length r.records) =
      omega (arith, length-append r.records (parsed ∷ [])) in
    elim (Bool-cases (ltb (length records) query.limit)) [
      | inl k ↦
          Folded-along
            (fold_lines-first query line lines r _ (e ∙ ap (λ b. (b, push_record parsed r)) k)) refl
            (later (ground (arith, k)))
      | inr k ↦
          let at : length records ≡ query.limit = ground (arith, k, one_more, few) in
          Folded-along
            (fold_lines-last query line lines r _ (e ∙ ap (λ b. (b, push_record parsed r)) k)) refl
            (filled refl clean
              (sym (ap (λ n. take n found) (sym at) ∙ take-length-append records _))
              (omega (arith, at, length-append records (selected query lines))))
    ]

pub fold_lines-Folded :
    (query : ReadQuery) (lines : List Bytes) (r : Reading)
    → r.segment_corrupted ≡ false
    → length r.records < query.limit
    → Folded query.limit
        (r.records ++ selected query lines)
        (fold_lines (consume_line query) lines r)
unfolding fold_lines selected readable matching count_corrupted_line push_record
fold_lines-Folded query [] r clean few =
    all_read refl clean (sym (append-nil r.records)) (ap-length (sym (append-nil r.records)) few)
fold_lines-Folded query (line ∷ lines) r clean few = elim (Option-cases (parse_record_line line)) [
  | inl e ↦
      Folded-along (fold_lines-last query line lines r _ (consume_line-none query line r e))
        (ap (λ l. r.records ++ l) (selected-none query line lines e) ∙ append-nil r.records)
        (damaged refl refl refl few)
  | inr (parsed, e) ↦ elim (Bool-cases (matches_record_query parsed query)) [
    | inr k ↦
        Folded-along
          (fold_lines-first query line lines r r (consume_line-other query line r parsed e k))
          (ap (λ l. r.records ++ l) (selected-other query line lines parsed e k))
          (fold_lines-Folded query lines r clean few)
    | inl k ↦
        let e' = consume_line-match query line r parsed e k in
        let same =
          ap (λ l. r.records ++ l) (selected-match query line lines parsed e k)
          ∙ sym (append_assoc r.records (parsed ∷ []) (selected query lines)) in
        Folded-along refl same (
          push-Folded query line lines r parsed e' clean few
            (λ more. fold_lines-Folded query lines (push_record parsed r) clean more))
  ]
]
