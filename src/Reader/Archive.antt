-- ===== src/Reader/Archive.antt =====
-- The reader of gzip archives in src/log_reader.cc against the lines of the bytes.
use mathlib.Core.Path.{subst}
use seastar_log_engine.Prelude.{
  ℕ, Bool, true, false, not, ◌&&◌, Bool-cases, ◌≡◌, refl, sym, ap, ◌∙◌, inl, inr, some, List, [],
  ◌∷◌, ◌++◌, Bytes, ◌==◌, if◌then◌else◌, append-nil, append_assoc, arith, All,
}
use seastar_log_engine.Recovery.Stream.Whole.{join_chunks}
use seastar_log_engine.Reader.{
  Reading, Consumer, Streamed, finished, stopped, c_string, ends_with_newline, pop_back,
  end_of_archive, gzgets_loop, count_gzip_read_error, opens, stream_gzip_lines, stream_plain_lines,
  read_archive, read_opening,
}
use seastar_log_engine.Reader.Lines.{
  begun_lines, fold_lines, fold_lines-on, fold_lines-stop, outcome, last_line-outcome,
  getline_loop-outcome,
}

-- What `gzgets` gives of a text without a byte 0: some bytes, none of them a line end but the last.
abbrev pub is_piece : Bytes → Bool
is_piece [] = false
is_piece (c ∷ []) = not (c == 0)
is_piece (c ∷ d ∷ bytes) = not (c == 0) && not (c == b'\n') && is_piece (d ∷ bytes)

abbrev pub IsPiece : Bytes → Type 0
IsPiece buffer = is_piece buffer ≡ true

c_string-IsPiece : (buffer : Bytes) → IsPiece buffer → c_string buffer ≡ buffer
unfolding c_string
c_string-IsPiece [] h = refl
c_string-IsPiece (c ∷ []) h = ground arith
c_string-IsPiece (c ∷ d ∷ bytes) h =
    let rest : IsPiece (d ∷ bytes) = ground (arith, h) in
    ground (arith, h, c_string-IsPiece (d ∷ bytes) rest)

pop_back-append :
    (line : Bytes) (c : ℕ) (buffer : Bytes)
    → pop_back (line ++ c ∷ buffer) ≡ line ++ pop_back (c ∷ buffer)
unfolding pop_back
pop_back-append [] c buffer = refl
pop_back-append (a ∷ []) c buffer = refl
pop_back-append (a ∷ b ∷ line) c buffer = ap (λ l. a ∷ l) (pop_back-append (b ∷ line) c buffer)

-- A piece with a line end ends a line, and one without goes on with it.
begun_lines-end :
    (failed : Bool) (line buffer rest : Bytes)
    → IsPiece buffer
    → ends_with_newline buffer ≡ true
    → begun_lines failed line (buffer ++ rest)
      ≡ (line ++ pop_back buffer) ∷ begun_lines failed [] rest
unfolding begun_lines ends_with_newline pop_back
begun_lines-end failed line [] rest h e = absurd (cc h)
begun_lines-end failed line (c ∷ []) rest h e =
    rw (begun_lines, e) (ap (λ l. l ∷ begun_lines failed [] rest) (sym (append-nil line)))
begun_lines-end failed line (c ∷ d ∷ bytes) rest h e =
    let other : (c == b'\n') ≡ false = ground (arith, h) in
    let piece : IsPiece (d ∷ bytes) = ground (arith, h) in
    rw (begun_lines, other)
      (begun_lines-end failed (line ++ c ∷ []) (d ∷ bytes) rest piece e
        ∙ ap (λ l. l ∷ begun_lines failed [] rest)
            (append_assoc line (c ∷ []) (pop_back (d ∷ bytes))))

begun_lines-whole :
    (failed : Bool) (line buffer rest : Bytes)
    → IsPiece buffer
    → ends_with_newline buffer ≡ true
    → begun_lines failed line (buffer ++ rest)
      ≡ pop_back (line ++ buffer) ∷ begun_lines failed [] rest
begun_lines-whole failed line [] rest h e = absurd (cc h)
begun_lines-whole failed line (c ∷ bytes) rest h e =
    begun_lines-end failed line (c ∷ bytes) rest h e
    ∙ ap (λ l. l ∷ begun_lines failed [] rest) (sym (pop_back-append line c bytes))

begun_lines-on :
    (failed : Bool) (line buffer rest : Bytes)
    → IsPiece buffer
    → ends_with_newline buffer ≡ false
    → begun_lines failed line (buffer ++ rest) ≡ begun_lines failed (line ++ buffer) rest
unfolding begun_lines ends_with_newline
begun_lines-on failed line [] rest h e = absurd (cc h)
begun_lines-on failed line (c ∷ []) rest h e = rw (begun_lines, e) refl
begun_lines-on failed line (c ∷ d ∷ bytes) rest h e =
    let other : (c == b'\n') ≡ false = ground (arith, h) in
    let piece : IsPiece (d ∷ bytes) = ground (arith, h) in
    rw (begun_lines, other)
      (begun_lines-on failed (line ++ c ∷ []) (d ∷ bytes) rest piece e
        ∙ ap (λ l. begun_lines failed l rest) (append_assoc line (c ∷ []) (d ∷ bytes)))

-- The result for the lines of an archive: a read error is counted as well.
unfoldable pub archive_outcome : Bool → Bool × Reading → Streamed
archive_outcome failed (on, r) =
    if on then (finished failed, if failed then count_gzip_read_error r else r) else (stopped, r)

outcome-archive_outcome : (x : Bool × Reading) → outcome false x ≡ archive_outcome false x
unfolding outcome archive_outcome
outcome-archive_outcome (true, r) = refl
outcome-archive_outcome (false, r) = refl

end_of_archive-outcome :
    (consume : Consumer) (failed : Bool) (line : Bytes) (r : Reading)
    → end_of_archive consume failed line r
      ≡ archive_outcome failed (fold_lines consume (begun_lines failed line []) r)
unfolding end_of_archive archive_outcome begun_lines fold_lines
end_of_archive-outcome consume true line r = refl
end_of_archive-outcome consume false line r =
    last_line-outcome consume line r
    ∙ outcome-archive_outcome (fold_lines consume (begun_lines false line []) r)

pub gzgets_loop-outcome :
    (consume : Consumer) (failed : Bool) (line : Bytes) (buffers : List Bytes) (r : Reading)
    → All IsPiece buffers
    → gzgets_loop consume failed line buffers r
      ≡ archive_outcome failed
          (fold_lines consume (begun_lines failed line (join_chunks buffers)) r)
unfolding gzgets_loop join_chunks archive_outcome
gzgets_loop-outcome consume failed line [] r pieces = end_of_archive-outcome consume failed line r
gzgets_loop-outcome consume failed line (buffer ∷ buffers) r pieces =
    let rest = join_chunks buffers in
    let text = c_string buffer in
    let same = c_string-IsPiece buffer pieces.0 in
    let piece = subst IsPiece (sym same) pieces.0 in
    let whole = pop_back (line ++ text) in
    let lines = begun_lines failed [] rest in
    let run = λ (l : List Bytes) (s : Reading). archive_outcome failed (fold_lines consume l s) in
    let read : gzgets_loop consume failed line (buffer ∷ buffers) r
        ≡ run (begun_lines failed line (text ++ rest)) r =
      elim (Bool-cases (ends_with_newline text)) [
        | inr e ↦
            rw (gzgets_loop, e)
              (gzgets_loop-outcome consume failed (line ++ text) buffers r pieces.1)
            ∙ sym (ap (λ l. run l r) (begun_lines-on failed line text rest piece e))
        | inl e ↦
            let cut = ap (λ l. run l r) (begun_lines-whole failed line text rest piece e) in
            elim (Bool-cases (consume whole r).0) [
              | inr k ↦
                  rw (gzgets_loop, e, k) refl
                  ∙ sym
                      (cut ∙ ap (archive_outcome failed) (fold_lines-stop consume whole lines r k))
              | inl k ↦
                  rw (gzgets_loop, e, k)
                    (gzgets_loop-outcome consume failed [] buffers (consume whole r).1 pieces.1)
                  ∙ sym (cut ∙ ap (archive_outcome failed) (fold_lines-on consume whole lines r k))
            ]
      ] in
    read ∙ ap (λ b. run (begun_lines failed line (b ++ rest)) r) same

-- A failing read of an archive is counted.
pub count_failure : Streamed → Streamed
count_failure (result, r) = (result, if result.read_error then count_gzip_read_error r else r)

archive_outcome-count_failure :
    (failed : Bool) (x : Bool × Reading)
    → archive_outcome failed x ≡ count_failure (outcome failed x)
unfolding archive_outcome count_failure outcome finished stopped
archive_outcome-count_failure failed (true, r) = refl
archive_outcome-count_failure failed (false, r) = refl

-- An archive whose pieces from `gzgets` have no byte 0 gives the consumer the same lines, and the
-- same result, as a plain file of the same bytes. A read error is counted besides.
stream_gzip_lines-stream_plain_lines :
    (consume : Consumer) (buffers : List Bytes) (failed : Bool) (r : Reading)
    (pieces : All IsPiece buffers)
    → stream_gzip_lines consume
        (record { gzip_exists = true; gzip_opening = some (buffers, failed) })
        r
      ≡ count_failure
          (stream_plain_lines consume (record { exists = true; opening = opens buffers failed }) r)
unfolding stream_gzip_lines stream_plain_lines read_archive read_opening
stream_gzip_lines-stream_plain_lines consume buffers failed r pieces =
    let bytes = join_chunks buffers in
    gzgets_loop-outcome consume failed [] buffers r pieces
    ∙ archive_outcome-count_failure failed (fold_lines consume (begun_lines failed [] bytes) r)
    ∙ ap count_failure (sym (getline_loop-outcome consume failed [] bytes r))
