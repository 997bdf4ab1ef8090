-- ===== src/Reader/Lines.antt =====
-- The readers of lines of src/log_reader.cc against the lines of the bytes.
use mathlib.Core.Path.{subst}
use seastar_log_engine.Prelude.{
  Bool, true, false, Bool-cases, ◌||◌, ◌≡◌, refl, sym, ap, ◌∙◌, ◌⊎◌, inl, inr, some, List, [], ◌∷◌,
  ◌++◌, Bytes, is_empty, ◌==◌, if◌then◌else◌, append-nil, append_assoc,
}
use seastar_log_engine.Recovery.Stream.Whole.{join_chunks}
use seastar_log_engine.Reader.{
  Reading, Consumer, Streamed, finished, stopped, last_line, getline_loop, BufferResult, stopped_at,
  more_of, joined_line, scan_buffer, scan_buffers, File, opens, read_opening, read_opening_async,
  stream_plain_lines, stream_plain_lines_async,
}

-- The lines of the bytes, the first behind the bytes of a line begun. The last one has no line end;
-- it is dropped when it is empty or the reads have failed.
unfoldable pub begun_lines : Bool → Bytes → Bytes → List Bytes
begun_lines failed line [] = if failed || is_empty line then [] else line ∷ []
begun_lines failed line (c ∷ bytes) = elim (c == b'\n') [
  | false ↦ begun_lines failed (line ++ c ∷ []) bytes
  | true ↦ line ∷ begun_lines failed [] bytes
]

-- The consumer on one line after the other, until it stops.
unfoldable pub fold_lines : Consumer → List Bytes → Reading → Bool × Reading
fold_lines consume [] r = (true, r)
fold_lines consume (line ∷ lines) r = elim (consume line r).0 [
  | false ↦ (false, (consume line r).1)
  | true ↦ fold_lines consume lines (consume line r).1
]

unfoldable pub outcome : Bool → Bool × Reading → Streamed
outcome failed x = (if x.0 then finished failed else stopped, x.1)

pub last_line-outcome :
    (consume : Consumer) (line : Bytes) (r : Reading)
    → last_line consume line r
      ≡ outcome false (fold_lines consume (if is_empty line then [] else line ∷ []) r)
unfolding last_line outcome fold_lines
last_line-outcome consume [] r = refl
last_line-outcome consume (c ∷ line) r = elim (Bool-cases (consume (c ∷ line) r).0) [
  | inl e ↦ rw e refl
  | inr e ↦ rw e refl
]

pub fold_lines-on :
    (consume : Consumer) (line : Bytes) (lines : List Bytes) (r : Reading)
    → (consume line r).0 ≡ true
    → fold_lines consume (line ∷ lines) r ≡ fold_lines consume lines (consume line r).1
unfolding fold_lines
fold_lines-on consume line lines r e = rw (fold_lines, e) refl

pub fold_lines-stop :
    (consume : Consumer) (line : Bytes) (lines : List Bytes) (r : Reading)
    → (consume line r).0 ≡ false
    → fold_lines consume (line ∷ lines) r ≡ (false, (consume line r).1)
unfolding fold_lines
fold_lines-stop consume line lines r e = rw (fold_lines, e) refl

pub getline_loop-outcome :
    (consume : Consumer) (failed : Bool) (line bytes : Bytes) (r : Reading)
    → getline_loop consume failed line bytes r
      ≡ outcome failed (fold_lines consume (begun_lines failed line bytes) r)
unfolding getline_loop outcome begun_lines fold_lines
getline_loop-outcome consume true line [] r = refl
getline_loop-outcome consume false line [] r = last_line-outcome consume line r
getline_loop-outcome consume failed line (c ∷ bytes) r = elim (Bool-cases (c == b'\n')) [
  | inr e ↦
      rw (getline_loop, begun_lines, e)
        (getline_loop-outcome consume failed (line ++ c ∷ []) bytes r)
  | inl e ↦
      let lines = begun_lines failed [] bytes in
      rw (getline_loop, begun_lines, e)
        (elim (Bool-cases (consume line r).0) [
          | inr k ↦ rw k refl ∙ sym (ap (outcome failed) (fold_lines-stop consume line lines r k))
          | inl k ↦
              rw k (getline_loop-outcome consume failed [] bytes (consume line r).1)
              ∙ sym (ap (outcome failed) (fold_lines-on consume line lines r k))
        ])
]

-- What the loop over the lines does behind a buffer.
resume : Consumer → Bool → Bytes → BufferResult → Streamed
resume consume failed rest (stopped_at r) = (stopped, r)
resume consume failed rest (more_of pending r) = getline_loop consume failed pending rest r

joined_line-append : (pending run : Bytes) → joined_line pending run ≡ pending ++ run
unfolding joined_line
joined_line-append [] run = refl
joined_line-append (c ∷ pending) run = refl

scan_buffer-resume :
    (consume : Consumer) (failed : Bool) (pending run buffer rest : Bytes) (r : Reading)
    → getline_loop consume failed (pending ++ run) (buffer ++ rest) r
      ≡ resume consume failed rest (scan_buffer consume pending run buffer r)
unfolding scan_buffer resume getline_loop
scan_buffer-resume consume failed pending run [] rest r = refl
scan_buffer-resume consume failed pending run (c ∷ buffer) rest r = elim (Bool-cases (c == b'\n')) [
  | inr e ↦
      rw (getline_loop, scan_buffer, e, append_assoc pending run (c ∷ []))
        (scan_buffer-resume consume failed pending (run ++ c ∷ []) buffer rest r)
  | inl e ↦
      let line = joined_line pending run in
      subst
        (λ l.
          getline_loop consume failed l (c ∷ buffer ++ rest) r
          ≡ resume consume failed rest (scan_buffer consume pending run (c ∷ buffer) r))
        (joined_line-append pending run)
        (rw (getline_loop, scan_buffer, e)
          (elim (Bool-cases (consume line r).0) [
            | inr k ↦ rw k refl
            | inl k ↦ rw k (scan_buffer-resume consume failed [] [] buffer rest (consume line r).1)
          ]))
]

-- A read that is not the last one gives bytes.
abbrev pub NonEmpty : List Bytes → Type 0
NonEmpty [] = Unit
NonEmpty (buffer ∷ buffers) = (is_empty buffer ≡ false) × NonEmpty buffers

BufferResult-cases :
    (x : BufferResult)
    → ((r : Reading) × (x ≡ stopped_at r))
      ⊎ ((pending : Bytes) × (r : Reading) × (x ≡ more_of pending r))
BufferResult-cases (stopped_at r) = inl (r, refl)
BufferResult-cases (more_of pending r) = inr (pending, r, refl)

scan_buffers-getline_loop :
    (consume : Consumer) (failed : Bool) (pending : Bytes) (buffers : List Bytes) (r : Reading)
    → NonEmpty buffers
    → scan_buffers consume failed pending buffers r
      ≡ getline_loop consume failed pending (join_chunks buffers) r
unfolding scan_buffers getline_loop join_chunks resume
scan_buffers-getline_loop consume failed pending [] r full = refl
scan_buffers-getline_loop consume failed pending ([] ∷ buffers) r full = absurd (cc full.0)
scan_buffers-getline_loop consume failed pending ((c ∷ buffer) ∷ buffers) r full =
    let rest = join_chunks buffers in
    let whole =
      ap (λ line. getline_loop consume failed line (c ∷ buffer ++ rest) r)
        (sym (append-nil pending))
      ∙ scan_buffer-resume consume failed pending [] (c ∷ buffer) rest r in
    let all = (c ∷ buffer) ∷ buffers in
    elim (BufferResult-cases (scan_buffer consume pending [] (c ∷ buffer) r)) [
      | inl (r', e) ↦
          let here : scan_buffers consume failed pending all r ≡ (stopped, r') =
            rw (scan_buffers, e) refl in
          here ∙ sym (whole ∙ ap (resume consume failed rest) e)
      | inr (p, r', e) ↦
          let here : scan_buffers consume failed pending all r
              ≡ scan_buffers consume failed p buffers r' =
            rw (scan_buffers, e) refl in
          here
          ∙ scan_buffers-getline_loop consume failed p buffers r' full.1
          ∙ sym (whole ∙ ap (resume consume failed rest) e)
    ]

-- A file that is open or missing throughout.
abbrev pub IsSteady : File → Type 0
IsSteady file =
    (file.exists ≡ false)
    ⊎ ((buffers : List Bytes) × (failed : Bool) × (file.opening ≡ opens buffers failed)
        × NonEmpty buffers)

-- Read asynchronously, in whatever buffers, a file that stays open or is missing gives the consumer
-- the same lines as `std::getline` does, with the same result.
pub stream_plain_lines_async-stream_plain_lines :
    (consume : Consumer) (file : File) (r : Reading) (steady : IsSteady file)
    → stream_plain_lines_async consume file r ≡ some (stream_plain_lines consume file r)
unfolding stream_plain_lines_async stream_plain_lines read_opening_async read_opening getline_loop
stream_plain_lines_async-stream_plain_lines consume file r (inl gone) = rw gone refl
stream_plain_lines_async-stream_plain_lines consume file r (inr (buffers, failed, e, full)) =
    let same : read_opening_async consume file.opening r
        ≡ some (read_opening consume file.opening r) =
      subst (λ o. read_opening_async consume o r ≡ some (read_opening consume o r)) (sym e)
        (ap (λ x. some x) (scan_buffers-getline_loop consume failed [] buffers r full)) in
    elim (Bool-cases file.exists) [ inl here ↦ rw here same | inr gone ↦ rw gone refl ]
