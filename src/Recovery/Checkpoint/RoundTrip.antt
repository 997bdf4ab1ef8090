-- ===== src/Recovery/Checkpoint/RoundTrip.antt =====
-- A checkpoint that was written is read back.
use seastar_log_engine.Prelude.{
  ℕ, ◌<◌, ◌≡◌, ◌≢◌, refl, sym, ap, ◌∙◌, true, false, some, [], ◌∷◌, ◌++◌, append-nil, append_assoc,
  arith, Bytes, codes, All-append, All-mono, ltb, ◌==◌, ◌>>=◌, to_decimal, u32_modulus, u64_modulus,
}
use seastar_log_engine.Codec.Crc.{crc32}
use seastar_log_engine.Codec.Crc.Slicing.{AreBytes-append, crc32-lt}
use seastar_log_engine.Codec.Crc.Word.{AreBytes}
use seastar_log_engine.Codec.Text.Decimal.{IsDigit, to_decimal-IsDigit, parse_whole-to_decimal}
use seastar_log_engine.Codec.Record.Find.{Lacks}
use seastar_log_engine.Recovery.{CheckpointState}
use seastar_log_engine.Recovery.Checkpoint.{
  end_of_line, checkpoint_body, checkpoint_text, CheckpointReader, parse_u64, read_key, read_crc,
  read_line, read_lines, finish_checkpoint, first_reader, read_checkpoint,
}

read_lines-byte :
    (reader : CheckpointReader) (line content : Bytes) (c : ℕ)
    → c ≢ b'\n'
    → read_lines reader line (c ∷ content) ≡ read_lines reader (line ++ c ∷ []) content
unfolding read_lines
read_lines-byte reader line content c h = ground arith

read_lines-gather :
    (reader : CheckpointReader) (seen line content : Bytes)
    → Lacks b'\n' line
    → read_lines reader seen (line ++ content) ≡ read_lines reader (seen ++ line) content
read_lines-gather reader seen [] content h =
    ap (λ s. read_lines reader s content) (sym (append-nil seen))
read_lines-gather reader seen (c ∷ line) content h =
    read_lines-byte reader seen (line ++ content) c h.0
    ∙ read_lines-gather reader (seen ++ c ∷ []) line content h.1
    ∙ ap (λ s. read_lines reader s content) (append_assoc seen (c ∷ []) line)

-- One whole line.
read_lines-line :
    (reader next : CheckpointReader) (line content : Bytes)
    → Lacks b'\n' line
    → read_line reader line ≡ some next
    → read_lines reader [] (line ++ b'\n' ∷ content) ≡ read_lines next [] content
unfolding read_lines
read_lines-line reader next line content h e =
    read_lines-gather reader [] line (b'\n' ∷ content) h ∙ rw (read_lines, e) refl

to_decimal-Lacks : (n : ℕ) → Lacks b'\n' (to_decimal n)
to_decimal-Lacks n =
    All-mono IsDigit (λ b. b ≢ b'\n') (λ b h. omega (arith, h)) (to_decimal n)
      (to_decimal-IsDigit n)

key-Lacks : (key : Bytes) (n : ℕ) → Lacks b'\n' key → Lacks b'\n' (key ++ to_decimal n)
key-Lacks key n h = All-append (λ b. b ≢ b'\n') key (to_decimal n) h (to_decimal-Lacks n)

parse_u64-to_decimal : (n : ℕ) → n < u64_modulus → parse_u64 (to_decimal n) ≡ some n
unfolding parse_u64
parse_u64-to_decimal n h = parse_whole-to_decimal u64_modulus n h h

version_read : CheckpointReader
version_read = record first_reader {
  saw_version = true;
  signed_body = codes "format_version=2" ++ end_of_line;
}

read_line-version : read_line first_reader (codes "format_version=2") ≡ some version_read
unfolding read_line read_key version_read
read_line-version = refl

-- The lines of a checkpoint, one after the other.
module _ (reader : CheckpointReader) (n : ℕ) (h : n < u64_modulus) where
  signed : Bytes → Bytes
  signed line = reader.signed_body ++ line ++ end_of_line

  read_line-logical_size :
      read_line reader (codes "logical_size=" ++ to_decimal n)
      ≡ some (record reader {
        logical_size = some n;
        signed_body = signed (codes "logical_size=" ++ to_decimal n);
      })
  unfolding read_line read_key signed
  read_line-logical_size = rw (parse_u64-to_decimal n h)

  read_line-sequence :
      read_line reader (codes "sequence=" ++ to_decimal n)
      ≡ some (record reader {
        sequence = some n;
        signed_body = signed (codes "sequence=" ++ to_decimal n);
      })
  unfolding read_line read_key signed
  read_line-sequence = rw (parse_u64-to_decimal n h)

  read_line-rotation_index :
      read_line reader (codes "rotation_index=" ++ to_decimal n)
      ≡ some (record reader {
        rotation_index = some n;
        signed_body = signed (codes "rotation_index=" ++ to_decimal n);
      })
  unfolding read_line read_key signed
  read_line-rotation_index = rw (parse_u64-to_decimal n h)

  read_line-crc :
      n < u32_modulus
      → read_line reader (codes "checkpoint_crc=" ++ to_decimal n)
        ≡ some (record reader { checkpoint_crc = some n })
  unfolding read_line read_crc
  read_line-crc small =
      let fits : ltb 4294967295 n ≡ false = ground arith in rw (parse_u64-to_decimal n h, fits)

lines_assoc :
    (a b c d e end : Bytes)
    → a ++ end ++ b ++ end ++ c ++ end ++ d ++ end ++ e ++ end
      ≡ a ++ (end ++ (b ++ (end ++ (c ++ (end ++ (d ++ (end ++ (e ++ end))))))))
lines_assoc a b c d e end = simp append_assoc refl

-- One more line behind a text of bytes.
line-AreBytes :
    (s key : Bytes) (n : ℕ)
    → AreBytes s
    → AreBytes key
    → AreBytes (s ++ (key ++ to_decimal n) ++ end_of_line)
line-AreBytes s key n h k =
    let digits : AreBytes (to_decimal n) =
      All-mono IsDigit (λ b. b < 256) (λ b d. omega (arith, d)) (to_decimal n)
        (to_decimal-IsDigit n) in
    AreBytes-append (s ++ (key ++ to_decimal n)) end_of_line
      (AreBytes-append s (key ++ to_decimal n) h (AreBytes-append key (to_decimal n) k digits))
      (omega arith)

body-AreBytes : (checkpoint : CheckpointState) → AreBytes (checkpoint_body checkpoint)
unfolding checkpoint_body
body-AreBytes checkpoint =
    let first : Bytes = codes "format_version=2" ++ end_of_line in
    let second =
      first ++ (codes "logical_size=" ++ to_decimal checkpoint.logical_size) ++ end_of_line in
    let third = second ++ (codes "sequence=" ++ to_decimal checkpoint.sequence) ++ end_of_line in
    line-AreBytes third (codes "rotation_index=") checkpoint.rotation_index
      (line-AreBytes second (codes "sequence=") checkpoint.sequence
        (line-AreBytes first (codes "logical_size=") checkpoint.logical_size (omega arith)
          (omega arith))
        (omega arith))
      (omega arith)

read_lines-finish :
    (checkpoint : CheckpointState) (body : Bytes)
    → (read_lines
          (record {
            saw_version = true;
            logical_size = some checkpoint.logical_size;
            sequence = some checkpoint.sequence;
            rotation_index = some checkpoint.rotation_index;
            checkpoint_crc = some (crc32 body);
            signed_body = body;
          })
          []
          []
        >>= finish_checkpoint)
      ≡ some checkpoint
unfolding read_lines finish_checkpoint
read_lines-finish checkpoint body =
    let same : (crc32 body == crc32 body) ≡ true = ground arith in rw same

-- A checkpoint of 64-bit numbers that was written is read back: the five lines are found, and the
-- checksum is that of the four lines in front of it.
pub read_checkpoint-checkpoint_text :
    (checkpoint : CheckpointState)
    → checkpoint.logical_size < u64_modulus
    → checkpoint.sequence < u64_modulus
    → checkpoint.rotation_index < u64_modulus
    → read_checkpoint (checkpoint_text checkpoint) ≡ some checkpoint
unfolding read_checkpoint checkpoint_text checkpoint_body version_read signed
read_checkpoint-checkpoint_text checkpoint h1 h2 h3 =
    let crc = crc32 (checkpoint_body checkpoint) in
    let size_line = codes "logical_size=" ++ to_decimal checkpoint.logical_size in
    let sequence_line = codes "sequence=" ++ to_decimal checkpoint.sequence in
    let rotation_line = codes "rotation_index=" ++ to_decimal checkpoint.rotation_index in
    let crc_line = codes "checkpoint_crc=" ++ to_decimal crc in
    let fits : crc < u32_modulus =
      crc32-lt (checkpoint_body checkpoint) (body-AreBytes checkpoint) in
    ap (λ text. read_lines first_reader [] text >>= finish_checkpoint)
      (lines_assoc (codes "format_version=2") size_line sequence_line rotation_line crc_line
        end_of_line)
    ∙ ap (λ reader. reader >>= finish_checkpoint)
        (read_lines-line first_reader version_read (codes "format_version=2") _ (omega arith)
            read_line-version
          ∙ read_lines-line _ _ size_line _
              (key-Lacks (codes "logical_size=") checkpoint.logical_size (omega arith))
              (read_line-logical_size _ checkpoint.logical_size h1)
          ∙ read_lines-line _ _ sequence_line _
              (key-Lacks (codes "sequence=") checkpoint.sequence (omega arith))
              (read_line-sequence _ checkpoint.sequence h2)
          ∙ read_lines-line _ _ rotation_line _
              (key-Lacks (codes "rotation_index=") checkpoint.rotation_index (omega arith))
              (read_line-rotation_index _ checkpoint.rotation_index h3)
          ∙ read_lines-line _ _ crc_line [] (key-Lacks (codes "checkpoint_crc=") crc (omega arith))
              (read_line-crc _ crc (omega (arith, fits)) fits))
    ∙ read_lines-finish checkpoint (checkpoint_body checkpoint)
