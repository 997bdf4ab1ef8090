-- ===== src/Codec/Record/Find.antt =====
-- Searches in texts of a known shape: `find`, and the readers of the checksum prefix in
-- src/record_codec.cc that stand on it.
use seastar_log_engine.Prelude.{
  ℕ, suc, ◌+◌, ◌-◌, ◌<◌, ◌≡◌, ◌≢◌, refl, sym, ap, ◌∙◌, true, false, some, [], ◌∷◌, ◌++◌,
  append_assoc, arith, Bytes, length, length-append, drop, take-length-append, drop-length-append,
  All, All-append, find_byte, find_text, starts_with, leb,
}
use seastar_log_engine.Codec.Record.{body_after_tab, encoded_crc, parse_crc_hex}

abbrev pub Lacks : ℕ → Bytes → Type 0
Lacks c s = All (λ b. b ≢ c) s

pub find_byte-append :
    (c : ℕ) (s rest : Bytes) → Lacks c s → find_byte c (s ++ c ∷ rest) ≡ some (length s)
find_byte-append c [] rest h = ground arith
find_byte-append c (d ∷ s) rest h = ground (arith, h.0, find_byte-append c s rest h.1)

-- A text that lacks the needle's first byte is passed over.
pub find_text-skip :
    (c : ℕ) (needle s rest : Bytes) (k : ℕ)
    → Lacks c s
    → find_text (c ∷ needle) rest ≡ some k
    → find_text (c ∷ needle) (s ++ rest) ≡ some (length s + k)
find_text-skip c needle [] rest k h e = e ∙ ap some (omega arith)
find_text-skip c needle (d ∷ s) rest k h e =
    ground (arith, h.0, find_text-skip c needle s rest k h.1 e)

pub starts_with-append : (s rest : Bytes) → starts_with s (s ++ rest) ≡ true
starts_with-append [] rest = refl
starts_with-append (c ∷ s) rest = ground (arith, starts_with-append s rest)

pub find_text-here :
    (c : ℕ) (needle rest : Bytes) → find_text (c ∷ needle) ((c ∷ needle) ++ rest) ≡ some 0
find_text-here c needle rest = rw (starts_with-append (c ∷ needle) rest)

pub drop-behind : (c : ℕ) (s rest : Bytes) → drop (suc (length s)) (s ++ c ∷ rest) ≡ rest
drop-behind c [] rest = refl
drop-behind c (d ∷ s) rest = drop-behind c s rest

pub body_after_tab_lem :
    (s rest : Bytes) → Lacks b'\t' s → body_after_tab (s ++ b'\t' ∷ rest) ≡ rest
unfolding body_after_tab
body_after_tab_lem s rest h =
    rw (body_after_tab, find_byte-append b'\t' s rest h)
      (ap (λ n. drop n (s ++ b'\t' ∷ rest)) {y = suc (length s)} (omega arith)
        ∙ drop-behind b'\t' s rest)

-- A checksum between a prefix and a tab.
pub encoded_crc_lem :
    (prefix digits rest : Bytes) (crc : ℕ)
    → Lacks b'\t' prefix
    → Lacks b'\t' digits
    → 0 < length digits
    → parse_crc_hex digits ≡ some crc
    → encoded_crc (length prefix) (prefix ++ (digits ++ b'\t' ∷ rest)) ≡ some crc
unfolding encoded_crc
encoded_crc_lem prefix digits rest crc hp hd pos parsed =
    let found : find_byte b'\t' (prefix ++ (digits ++ b'\t' ∷ rest))
        ≡ some (length prefix + length digits) =
      ap (find_byte b'\t') (sym (append_assoc prefix digits (b'\t' ∷ rest)))
      ∙ find_byte-append b'\t' (prefix ++ digits) rest
          (All-append (λ b. b ≢ b'\t') prefix digits hp hd)
      ∙ ap some (length-append prefix digits) in
    let size : length prefix + length digits - length prefix ≡ length digits = omega arith in
    let enough : leb (length prefix + length digits) (length prefix) ≡ false = ground arith in
    rw
      (
        found,
        enough,
        drop-length-append prefix (digits ++ b'\t' ∷ rest),
        size,
        take-length-append digits (b'\t' ∷ rest),
      )
      parsed
