-- ===== src/Agent/Lines.antt =====
-- Texts of lines that src/agent_support.cc writes and reads: the loop over `std::getline` on a text, and
-- the lines `key=value`.
use seastar_log_engine.Prelude.{
  false, ℕ, suc, ◌+◌, ◌≡◌, ◌≢◌, refl, sym, ap, ◌∙◌, Option, none, some, List, [], ◌∷◌, ◌++◌,
  append-nil, append_assoc, arith, Bytes, All-mono, All-append, take, drop, length, find_byte, ◌==◌,
  if◌then◌else◌, to_decimal, u64_modulus, parse_whole, ◌<◌, take-length-append, bytes_eq,
}
use seastar_log_engine.Codec.Json.{StringMap, map_assign}
use seastar_log_engine.Codec.Record.Find.{Lacks, find_byte-append, drop-behind}
use seastar_log_engine.Codec.Text.Decimal.{IsDigit, to_decimal-IsDigit, parse_whole-to_decimal}
use seastar_log_engine.Reader.Lines.{begun_lines}

-- The lines of a text, the last one without its line end.
pub text_lines : Bytes → List Bytes
text_lines content = begun_lines false [] content

pub parse_u64 : Bytes → Option ℕ
parse_u64 value = parse_whole 10 u64_modulus value

-- The parts in front of and behind the first `=`.
unfoldable pub split_pair : ℕ → Bytes → Option (Bytes × Bytes)
split_pair separator line = elim (find_byte separator line) [
  | none ↦ none
  | some pos ↦ some (take pos line, drop (pos + 1) line)
]

unfoldable pub collect_pairs : List Bytes → StringMap → StringMap
collect_pairs [] values = values
collect_pairs (line ∷ lines) values = elim (split_pair b'=' line) [
  | none ↦ collect_pairs lines values
  | some pair ↦ collect_pairs lines (map_assign pair.0 pair.1 values)
]

unfoldable pub parse_kv_text : Bytes → StringMap
parse_kv_text content = collect_pairs (text_lines content) []

-- `values.find(key)`.
unfoldable pub map_find : Bytes → StringMap → Option Bytes
map_find key [] = none
map_find key ((k, v) ∷ values) = if bytes_eq k key then some v else map_find key values

begun_lines-line :
    (seen line rest : Bytes)
    → Lacks b'\n' line
    → begun_lines false seen (line ++ b'\n' ∷ rest) ≡ (seen ++ line) ∷ begun_lines false [] rest
unfolding begun_lines
begun_lines-line seen [] rest h = ap (λ l. l ∷ begun_lines false [] rest) (sym (append-nil seen))
begun_lines-line seen (c ∷ line) rest h =
    let other : (c == b'\n') ≡ false = ground (arith, h.0) in
    rw (begun_lines, other)
      (begun_lines-line (seen ++ c ∷ []) line rest h.1
        ∙ ap (λ l. l ∷ begun_lines false [] rest) (append_assoc seen (c ∷ []) line))

pub text_lines-line :
    (line rest : Bytes)
    → Lacks b'\n' line
    → text_lines (line ++ b'\n' ∷ rest) ≡ line ∷ text_lines rest
unfolding text_lines
text_lines-line line rest h = begun_lines-line [] line rest h

pub text_lines-nil : text_lines [] ≡ []
unfolding text_lines begun_lines
text_lines-nil = refl

pub split_pair-append :
    (separator : ℕ) (key value : Bytes)
    → Lacks separator key
    → split_pair separator (key ++ separator ∷ value) ≡ some (key, value)
unfolding split_pair
split_pair-append separator key value h =
    rw (split_pair, find_byte-append separator key value h)
      (ap (λ k. some (k, drop (length key + 1) (key ++ separator ∷ value)))
          (take-length-append key (separator ∷ value))
        ∙ ap (λ n. some (key, drop n (key ++ separator ∷ value))) {x = length key + 1}
            {y = suc (length key)} (omega arith)
        ∙ ap (λ v. some (key, v)) (drop-behind separator key value))

pub to_decimal-Lacks : (c n : ℕ) → ((d : ℕ) → IsDigit d → d ≢ c) → Lacks c (to_decimal n)
to_decimal-Lacks c n h = All-mono IsDigit (λ d. d ≢ c) h (to_decimal n) (to_decimal-IsDigit n)

pub to_decimal-Lacks_newline : (n : ℕ) → Lacks b'\n' (to_decimal n)
to_decimal-Lacks_newline n = to_decimal-Lacks b'\n' n (λ d h. omega (arith, h))

pub key-Lacks : (c : ℕ) (key value : Bytes) → Lacks c key → Lacks c value → Lacks c (key ++ value)
key-Lacks c key value h k = All-append (λ b. b ≢ c) key value h k

pub key-Lacks_newline :
    (key value : Bytes) → Lacks b'\n' key → Lacks b'\n' value → Lacks b'\n' (key ++ value)
key-Lacks_newline key value h k = All-append (λ b. b ≢ b'\n') key value h k

pub parse_u64-to_decimal : (n : ℕ) → n < u64_modulus → parse_u64 (to_decimal n) ≡ some n
unfolding parse_u64
parse_u64-to_decimal n h = parse_whole-to_decimal u64_modulus n h h

pub collect_pairs-pair :
    (key value : Bytes) (lines : List Bytes) (values : StringMap)
    → Lacks b'=' key
    → collect_pairs ((key ++ b'=' ∷ value) ∷ lines) values
      ≡ collect_pairs lines (map_assign key value values)
unfolding collect_pairs
collect_pairs-pair key value lines values h =
    rw (collect_pairs, split_pair-append b'=' key value h) refl
