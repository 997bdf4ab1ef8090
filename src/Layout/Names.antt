-- ===== src/Layout/Names.antt =====
-- The names of segments in src/log_layout.cc, written and read back.
use native.Mathlib.Nat.{mod-eq_of_lt}
use seastar_log_engine.Prelude.{
  ℕ, suc, ◌+◌, ◌%◌, ◌≤◌, ◌<◌, ◌≡◌, refl, sym, ap, ◌∙◌, Bool, true, false, none, some, [], ◌∷◌, ◌++◌,
  append-nil, append_assoc, arith, Bytes, codes, length, length-append, take, drop,
  take-length-append, drop-length-append, leb, ◌==◌, if◌then◌else◌, All, bytes_eq, find_byte,
  to_decimal, u32_modulus, u64_modulus, All-append,
}
use seastar_log_engine.Config.{EngineConfig}
use seastar_log_engine.Codec.Record.Find.{Lacks, find_byte-append, starts_with-append, drop-behind}
use seastar_log_engine.Codec.Text.Decimal.{IsDigit, to_decimal-IsDigit, parse_whole-to_decimal}
use seastar_log_engine.Recovery.Checkpoint.{parse_u64}
use seastar_log_engine.Layout.{
  shard_prefix, active_log_path, active_segment, archive_log_path, after_last, filename, extension,
  without_last, last_of, describe_archive, describe_active, describe_base, describe_path,
  describe_tail, describe_name,
}

after_last-Lacks : (c : ℕ) (s : Bytes) → Lacks c s → after_last c s ≡ none
unfolding after_last
after_last-Lacks c [] h = refl
after_last-Lacks c (d ∷ s) h = ground (arith, h.0, after_last-Lacks c s h.1)

after_last-append : (c : ℕ) (s t : Bytes) → Lacks c t → after_last c (s ++ c ∷ t) ≡ some t
unfolding after_last
after_last-append c [] t h = ground (arith, after_last-Lacks c t h)
after_last-append c (d ∷ s) t h = ground (arith, after_last-append c s t h)

-- A path in a directory has the name that was put there.
pub filename-append :
    (directory name : Bytes) → Lacks b'/' name → filename (directory ++ (codes "/" ++ name)) ≡ name
unfolding filename
filename-append directory name h = ground (arith, after_last-append b'/' directory name h)

IsDigit-Lacks : (c : ℕ) (s : Bytes) → c < b'0' → All IsDigit s → Lacks c s
IsDigit-Lacks c [] h digits = tt
IsDigit-Lacks c (d ∷ s) h digits = (omega (arith, h, digits.0), IsDigit-Lacks c s h digits.1)

find_byte-Lacks : (c : ℕ) (s : Bytes) → Lacks c s → find_byte c s ≡ none
find_byte-Lacks c [] h = refl
find_byte-Lacks c (d ∷ s) h = ground (arith, h.0, find_byte-Lacks c s h.1)

not-dots : (s : Bytes) → 3 ≤ length s → bytes_eq s (codes "..") ≡ false
not-dots [] h = absurd (omega (arith, h))
not-dots (a ∷ []) h = absurd (omega (arith, h))
not-dots (a ∷ b ∷ []) h = absurd (omega (arith, h))
not-dots (a ∷ b ∷ c ∷ s) h = ground arith

-- The extension of a name with something in front of its last dot.
extension-append :
    (front ext : Bytes)
    → Lacks b'.' ext
    → 0 < length front
    → 0 < length ext
    → extension (front ++ b'.' ∷ ext) ≡ b'.' ∷ ext
unfolding extension
extension-append front ext h pos more =
    let size = length-append front (b'.' ∷ ext) in
    let long : 3 ≤ length (front ++ b'.' ∷ ext) = omega (arith, size, pos, more) in
    let longer : (length (front ++ b'.' ∷ ext) == length ext + 1) ≡ false = ground (arith, size) in
    ground (arith, after_last-append b'.' front ext h, not-dots (front ++ b'.' ∷ ext) long, longer)

without_last-append :
    (n : ℕ) (front end : Bytes) → length end ≡ n → without_last n (front ++ end) ≡ front
without_last-append n front end e =
    ap (λ k. take k (front ++ end)) {y = length front} (omega (arith, length-append front end, e))
    ∙ take-length-append front end

last_of-append : (n : ℕ) (front end : Bytes) → length end ≡ n → last_of n (front ++ end) ≡ end
last_of-append n front end e =
    ap (λ k. drop k (front ++ end)) {y = length front} (omega (arith, length-append front end, e))
    ∙ drop-length-append front end

-- The name of a segment without `.gz`, taken apart.
module _ (config : EngineConfig) (path tail : Bytes) where
  segment_base : Bytes
  segment_base = (config.shard_file_prefix ++ codes "-") ++ tail

  describe_base-tail :
      (compressed : Bool)
      → describe_base config path compressed segment_base ≡ describe_tail path compressed tail
  unfolding describe_base segment_base
  describe_base-tail compressed =
      rw
        (
          starts_with-append (config.shard_file_prefix ++ codes "-") tail,
          drop-length-append (config.shard_file_prefix ++ codes "-") tail,
        )
        refl

  describe_name-tail :
      (compressed : Bool)
      → describe_name config path compressed (segment_base ++ codes ".log")
        ≡ describe_tail path compressed tail
  unfolding describe_name segment_base
  describe_name-tail compressed =
      let prefix = config.shard_file_prefix ++ codes "-" in
      let long : leb (length (segment_base ++ codes ".log")) 4 ≡ false = ground (
        arith,
        length-append segment_base (codes ".log"),
        length-append prefix tail,
        length-append config.shard_file_prefix (codes "-"),
      ) in
      rw
        (
          long,
          last_of-append 4 segment_base (codes ".log") refl,
          without_last-append 4 segment_base (codes ".log") refl,
        )
        (describe_base-tail compressed)

  segment_base-pos : 0 < length segment_base
  unfolding segment_base
  segment_base-pos = omega (
    arith,
    length-append (config.shard_file_prefix ++ codes "-") tail,
    length-append config.shard_file_prefix (codes "-"),
  )

  describe_path-log :
      filename path ≡ segment_base ++ codes ".log"
      → describe_path config path ≡ describe_tail path false tail
  unfolding describe_path
  describe_path-log e =
      rw
        (
          e,
          extension-append segment_base (codes "log") (omega arith) segment_base-pos (omega arith),
        )
        (describe_name-tail false)

  describe_path-gz :
      filename path ≡ (segment_base ++ codes ".log") ++ codes ".gz"
      → describe_path config path ≡ describe_tail path true tail
  unfolding describe_path
  describe_path-gz e =
      let named = segment_base ++ codes ".log" in
      rw
        (
          e,
          extension-append named (codes "gz") (omega arith)
              (omega (arith, length-append segment_base (codes ".log"))) (omega arith),
          without_last-append 3 named (codes ".gz") refl,
        )
        (describe_name-tail true)

parse_u64-to_decimal : (n : ℕ) → n < u64_modulus → parse_u64 (to_decimal n) ≡ some n
unfolding parse_u64
parse_u64-to_decimal n h = parse_whole-to_decimal u64_modulus n h h

decimal-Lacks : (c n : ℕ) → c < b'0' → Lacks c (to_decimal n)
decimal-Lacks c n h = IsDigit-Lacks c (to_decimal n) h (to_decimal-IsDigit n)

describe_tail-active :
    (path : Bytes) (shard : ℕ)
    → shard < u32_modulus
    → describe_tail path false (to_decimal shard)
      ≡ some (record {
        path = path;
        shard_id = shard;
        archived = false;
        compressed = false;
        timestamp_ms = 0;
        rotation_index = 0;
      })
unfolding describe_tail describe_active
describe_tail-active path shard h =
    let small : shard % u32_modulus ≡ shard = mod-eq_of_lt h in
    rw
      (
        describe_tail,
        find_byte-Lacks b'.' (to_decimal shard) (decimal-Lacks b'.' shard (omega arith)),
        parse_u64-to_decimal shard (omega (arith, h)),
        small,
      )
      refl

describe_archive-archive :
    (path : Bytes) (compressed : Bool) (shard timestamp index : ℕ)
    → shard < u32_modulus
    → timestamp < u64_modulus
    → index < u64_modulus
    → describe_archive path compressed
        (to_decimal shard)
        (to_decimal timestamp ++ (codes "." ++ to_decimal index))
      ≡ some (record {
        path = path;
        shard_id = shard;
        archived = true;
        compressed = compressed;
        timestamp_ms = timestamp;
        rotation_index = index;
      })
unfolding describe_archive
describe_archive-archive path compressed shard timestamp index h k l =
    let small : shard % u32_modulus ≡ shard = mod-eq_of_lt h in
    let rest = to_decimal timestamp ++ (codes "." ++ to_decimal index) in
    let behind : drop (length (to_decimal timestamp) + 1) rest ≡ to_decimal index =
      ap (λ n. drop n rest) {y = suc (length (to_decimal timestamp))} (omega arith)
      ∙ drop-behind b'.' (to_decimal timestamp) (to_decimal index) in
    rw
      (
        describe_archive,
        find_byte-append b'.' (to_decimal timestamp) (to_decimal index)
            (decimal-Lacks b'.' timestamp (omega arith)),
        take-length-append (to_decimal timestamp) (codes "." ++ to_decimal index),
        behind,
        parse_u64-to_decimal shard (omega (arith, h)),
        parse_u64-to_decimal timestamp k,
        parse_u64-to_decimal index l,
        small,
      )
      refl

describe_tail-archive :
    (path : Bytes) (compressed : Bool) (shard : ℕ) (rest : Bytes)
    → describe_tail path compressed (to_decimal shard ++ (codes "." ++ rest))
      ≡ describe_archive path compressed (to_decimal shard) rest
unfolding describe_tail
describe_tail-archive path compressed shard rest =
    let tail = to_decimal shard ++ (codes "." ++ rest) in
    let behind : drop (length (to_decimal shard) + 1) tail ≡ rest =
      ap (λ n. drop n tail) {y = suc (length (to_decimal shard))} (omega arith)
      ∙ drop-behind b'.' (to_decimal shard) rest in
    rw
      (
        describe_tail,
        find_byte-append b'.' (to_decimal shard) rest (decimal-Lacks b'.' shard (omega arith)),
        take-length-append (to_decimal shard) (codes "." ++ rest),
        behind,
      )
      refl

-- The path of an active file is read back as the active segment of its shard. The prefix of the files
-- has no slash, and the shard fits in 32 bits.
describe_path-active_log_path :
    (config : EngineConfig) (shard : ℕ)
    → shard < u32_modulus
    → Lacks b'/' config.shard_file_prefix
    → describe_path config (active_log_path config shard) ≡ some (active_segment config shard)
unfolding active_log_path shard_prefix active_segment segment_base
describe_path-active_log_path config shard h slashless =
    let P = config.shard_file_prefix in
    let digits = to_decimal shard in
    let name = (P ++ (codes "-" ++ digits)) ++ codes ".log" in
    let path = config.log_dir ++ (codes "/" ++ name) in
    let lacks : Lacks b'/' name =
      All-append _ (P ++ (codes "-" ++ digits)) (codes ".log")
        (All-append _ P (codes "-" ++ digits) slashless
          (omega arith, decimal-Lacks b'/' shard (omega arith)))
        (omega arith) in
    describe_path-log config path digits (
      filename-append config.log_dir name lacks
      ∙ ap (λ s. s ++ codes ".log") (sym (append_assoc P (codes "-") digits)))
    ∙ describe_tail-active path shard h

gz_mark : Bool → Bytes
gz_mark compressed = if compressed then codes ".gz" else []

gz_mark-Lacks : (compressed : Bool) → Lacks b'/' (gz_mark compressed)
unfolding gz_mark
gz_mark-Lacks true = omega arith
gz_mark-Lacks false = tt

archive_tail : ℕ → ℕ → ℕ → Bytes
archive_tail shard timestamp index =
    to_decimal shard ++ (codes "." ++ (to_decimal timestamp ++ (codes "." ++ to_decimal index)))

filename-archive_log_path :
    (config : EngineConfig) (shard timestamp index : ℕ) (compressed : Bool)
    → Lacks b'/' config.shard_file_prefix
    → filename (archive_log_path config shard timestamp index compressed)
      ≡ (((config.shard_file_prefix ++ codes "-") ++ archive_tail shard timestamp index)
          ++ codes ".log")
        ++ gz_mark compressed
unfolding archive_log_path shard_prefix gz_mark archive_tail
filename-archive_log_path config shard timestamp index compressed slashless =
    let P = config.shard_file_prefix in
    let d1 = to_decimal shard in
    let d2 = to_decimal timestamp in
    let d3 = to_decimal index in
    let mark = gz_mark compressed in
    let slash = λ (n : ℕ). decimal-Lacks b'/' n (omega arith) in
    let end3 =
      All-append _ d3 (codes ".log" ++ mark) (slash index)
        (All-append _ (codes ".log") mark (omega arith) (gz_mark-Lacks compressed)) in
    let end2 =
      All-append _ d2 (codes "." ++ (d3 ++ (codes ".log" ++ mark))) (slash timestamp)
        (omega arith, end3) in
    let front = All-append _ P (codes "-" ++ d1) slashless (omega arith, slash shard) in
    let rest = d2 ++ (codes "." ++ (d3 ++ (codes ".log" ++ mark))) in
    filename-append config.archive_dir ((P ++ (codes "-" ++ d1)) ++ (codes "." ++ rest))
      (All-append _ (P ++ (codes "-" ++ d1)) (codes "." ++ rest) front (omega arith, end2))
    ∙ simp append_assoc

-- The path of an archive is read back with its shard, time and rotation, and with the mark of the
-- compression. The shard fits 32 bits, the time and the index 64, and the prefix of the names has no `/`.
pub describe_path-archive_log_path :
    (config : EngineConfig) (shard timestamp index : ℕ) (compressed : Bool)
    → shard < u32_modulus
    → timestamp < u64_modulus
    → index < u64_modulus
    → Lacks b'/' config.shard_file_prefix
    → describe_path config (archive_log_path config shard timestamp index compressed)
      ≡ some (record {
        path = archive_log_path config shard timestamp index compressed;
        shard_id = shard;
        archived = true;
        compressed = compressed;
        timestamp_ms = timestamp;
        rotation_index = index;
      })
unfolding segment_base gz_mark archive_tail
describe_path-archive_log_path config shard timestamp index true h k l slashless =
    let path = archive_log_path config shard timestamp index true in
    describe_path-gz config path (archive_tail shard timestamp index)
      (filename-archive_log_path config shard timestamp index true slashless)
    ∙ describe_tail-archive path true shard
        (to_decimal timestamp ++ (codes "." ++ to_decimal index))
    ∙ describe_archive-archive path true shard timestamp index h k l
describe_path-archive_log_path config shard timestamp index false h k l slashless =
    let path = archive_log_path config shard timestamp index false in
    describe_path-log config path (archive_tail shard timestamp index)
      (filename-archive_log_path config shard timestamp index false slashless ∙ append-nil _)
    ∙ describe_tail-archive path false shard
        (to_decimal timestamp ++ (codes "." ++ to_decimal index))
    ∙ describe_archive-archive path false shard timestamp index h k l
