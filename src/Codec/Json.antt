-- ===== src/Codec/Json.antt =====
-- The readers of JSON members in src/record_codec.cc. A position in a text is the list of the bytes
-- from it on.
use seastar_log_engine.Prelude.{
  ℕ, zero, suc, ◌+◌, ◌-◌, Bool, true, false, not, ◌&&◌, ◌||◌, Option, none, some, List, [], ◌∷◌,
  ◌++◌, Bytes, length, drop, bytes_eq, bytes_lt, find_byte, find_text, from_chars, ◌==◌,
  if◌then◌else◌, ◌>>=◌, u64_modulus,
}

-- The loops that pass over spaces and tabs, and over commas too.
unfoldable pub skip_spaces : Bytes → Bytes
skip_spaces [] = []
skip_spaces (c ∷ s) = if c == b' ' || c == b'\t' then skip_spaces s else c ∷ s

pub skip_separators : Bytes → Bytes
skip_separators [] = []
skip_separators (c ∷ s) = if c == b' ' || c == b'\t' || c == b',' then skip_separators s else c ∷ s

-- Where the value of a member starts: behind the first quoted key, the next colon, and spaces.
unfoldable pub find_member : Bytes → Bytes → Option Bytes
find_member body key = do
  let needle = b'"' ∷ key ++ b'"' ∷ []
  pos ← find_text needle body
  let rest = drop (pos + length needle) body
  colon ← find_byte b':' rest
  some (skip_spaces (drop (colon + 1) rest))

-- The byte that stands for `\c`.
unfoldable pub unescape : ℕ → ℕ
unescape c =
    if c == b'n' then b'\n' else if c == b'r' then b'\r' else if c == b't' then b'\t' else c

-- From behind the opening quote: the value and what follows the closing quote. A backslash that is
-- the last byte stands for itself.
unfoldable pub json_string_tail : Bytes → Bytes → Option (Bytes × Bytes)
json_string_tail value [] = none
json_string_tail value (c ∷ []) = if c == b'"' then some (value, []) else none
json_string_tail value (c ∷ e ∷ s) = elim (c == b'"') [
  | true ↦ some (value, e ∷ s)
  | false ↦ elim (c == b'\\') [
    | true ↦ json_string_tail (value ++ unescape e ∷ []) s
    | false ↦ json_string_tail (value ++ c ∷ []) (e ∷ s)
  ]
]

unfoldable pub parse_json_string_at : Bytes → Option (Bytes × Bytes)
parse_json_string_at [] = none
parse_json_string_at (c ∷ s) = if c == b'"' then json_string_tail [] s else none

unfoldable pub extract_json_string : Bytes → Bytes → Option Bytes
extract_json_string body key = do
  rest ← find_member body key
  parsed ← parse_json_string_at rest
  some parsed.0

pub extract_json_u64 : Bytes → Bytes → Option ℕ
extract_json_u64 body key = do
  rest ← find_member body key
  parsed ← from_chars 10 u64_modulus rest
  some parsed.0

-- The loop over the bytes from the opening brace on; `seen` holds those before the byte looked at.
pub json_object_loop : ℕ → Bool → Bool → Bytes → Bytes → Option Bytes
json_object_loop depth in_string escaped seen [] = none
json_object_loop depth in_string true seen (c ∷ s) =
    json_object_loop depth in_string false (seen ++ c ∷ []) s
json_object_loop depth in_string false seen (c ∷ s) =
    let seen' = seen ++ c ∷ [] in
    elim (in_string && c == b'\\') [
      | true ↦ json_object_loop depth in_string true seen' s
      | false ↦ elim (c == b'"') [
        | true ↦ json_object_loop depth (not in_string) false seen' s
        | false ↦ elim in_string [
          | true ↦ json_object_loop depth true false seen' s
          | false ↦ elim (c == b'{') [
            | true ↦ json_object_loop (depth + 1) false false seen' s
            | false ↦ elim (c == b'}') [
              | true ↦ elim (depth - 1 == 0) [
                | true ↦ some (drop 1 seen)
                | false ↦ json_object_loop (depth - 1) false false seen' s
              ]
              | false ↦ json_object_loop depth false false seen' s
            ]
          ]
        ]
      ]
    ]

pub json_object_at : Bytes → Option Bytes
json_object_at [] = none
json_object_at (c ∷ s) = if c == b'{' then json_object_loop 0 false false [] (c ∷ s) else none

pub extract_json_object : Bytes → Bytes → Option Bytes
extract_json_object body key = do rest ← find_member body key; json_object_at rest

-- `std::map<std::string, std::string>`, in the order of its keys.
abbrev pub StringMap : Type 0
StringMap = List (Bytes × Bytes)

-- `values[key] = value`.
unfoldable pub map_assign : Bytes → Bytes → StringMap → StringMap
map_assign key value [] = (key, value) ∷ []
map_assign key value ((k, v) ∷ m) =
    if bytes_eq key k
    then (key, value) ∷ m
    else if bytes_lt key k
    then (key, value) ∷ (k, v) ∷ m
    else (k, v) ∷ map_assign key value m

-- What stands at a colon, behind it and its spaces.
pub skip_colon : Bytes → Option Bytes
skip_colon [] = none
skip_colon (c ∷ s) = if c == b':' then some (skip_spaces s) else none

-- One key and its value, and what follows.
pub parse_json_pair : Bytes → Option (Bytes × Bytes × Bytes)
parse_json_pair s = do
  key ← parse_json_string_at s
  rest ← skip_colon (skip_spaces key.1)
  value ← parse_json_string_at rest
  some (key.0, value.0, value.1)

-- The outer loop; every round takes at least four bytes, so one round for each byte is enough.
pub json_map_loop : ℕ → StringMap → Bytes → StringMap
json_map_loop zero values s = values
json_map_loop (suc rounds) values s = elim (parse_json_pair (skip_separators s)) [
  | none ↦ values
  | some (key, value, rest) ↦ json_map_loop rounds (map_assign key value values) rest
]

pub parse_flat_json_string_map : Bytes → StringMap
parse_flat_json_string_map object_body = json_map_loop (length object_body) [] object_body
