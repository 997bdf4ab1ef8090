-- ===== src/Agent/Json.antt =====
-- The readers of JSON in src/agent_support.cc, which the ingest of records uses. A position in a text is
-- the list of the bytes from it on.
use seastar_log_engine.Prelude.{
  ℕ, zero, suc, ◌+◌, ◌-◌, Bool, true, false, not, ◌&&◌, ◌||◌, Option, none, some, List, [], ◌∷◌,
  ◌++◌, Bytes, codes, length, take, drop, find_byte, find_text, ◌==◌, if◌then◌else◌, ◌>>=◌,
}
use seastar_log_engine.Codec.Json.{StringMap, map_assign}

unfoldable pub is_json_space : ℕ → Bool
is_json_space c = c == b' ' || c == b'\t' || c == b'\n' || c == b'\r'

unfoldable pub skip_json_spaces : Bytes → Bytes
skip_json_spaces [] = []
skip_json_spaces (c ∷ s) = if is_json_space c then skip_json_spaces s else c ∷ s

unfoldable pub skip_json_separators : Bytes → Bytes
skip_json_separators [] = []
skip_json_separators (c ∷ s) =
    if is_json_space c || c == b',' then skip_json_separators s else c ∷ s

-- The byte for which `\c` stands.
unfoldable pub escaped_byte : ℕ → ℕ
escaped_byte c =
    if c == b'"'
    then c
    else if c == b'\\'
    then c
    else if c == b'/'
    then c
    else if c == b'n'
    then b'\n'
    else if c == b'r'
    then b'\r'
    else if c == b't'
    then b'\t'
    else c

-- From behind the opening quote on: the value and what follows the closing quote.
unfoldable pub json_string_rest : Bytes → Bytes → Option (Bytes × Bytes)
json_string_rest value [] = none
json_string_rest value (c ∷ []) = if c == b'"' then some (value, []) else none
json_string_rest value (c ∷ e ∷ s) = elim (c == b'"') [
  | true ↦ some (value, e ∷ s)
  | false ↦ elim (c == b'\\') [
    | true ↦ json_string_rest (value ++ escaped_byte e ∷ []) s
    | false ↦ json_string_rest (value ++ c ∷ []) (e ∷ s)
  ]
]

unfoldable pub parse_json_string_at : Bytes → Option (Bytes × Bytes)
parse_json_string_at [] = none
parse_json_string_at (c ∷ s) = if c == b'"' then json_string_rest [] s else none

-- Where the value of a member starts.
unfoldable pub json_member_value : Bytes → Bytes → Option Bytes
json_member_value body key = do
  let needle = b'"' ∷ key ++ b'"' ∷ []
  pos ← find_text needle body
  let rest = drop (pos + length needle) body
  colon ← find_byte b':' rest
  some (skip_json_spaces (drop (colon + 1) rest))

unfoldable pub extract_json_string : Bytes → Bytes → Option Bytes
extract_json_string body key = do
  rest ← json_member_value body key
  parsed ← parse_json_string_at rest
  some parsed.0

-- The loop over the bytes of an object from its opening brace on: the object with its braces, and what
-- follows it. `seen` holds the bytes before the one looked at.
unfoldable pub json_object_end : ℕ → Bool → Bool → Bytes → Bytes → Option (Bytes × Bytes)
json_object_end depth in_string escaped seen [] = none
json_object_end depth in_string true seen (c ∷ s) =
    json_object_end depth in_string false (seen ++ c ∷ []) s
json_object_end depth in_string false seen (c ∷ s) =
    let seen' = seen ++ c ∷ [] in
    elim (in_string && c == b'\\') [
      | true ↦ json_object_end depth in_string true seen' s
      | false ↦ elim (c == b'"') [
        | true ↦ json_object_end depth (not in_string) false seen' s
        | false ↦ elim in_string [
          | true ↦ json_object_end depth true false seen' s
          | false ↦ elim (c == b'{') [
            | true ↦ json_object_end (depth + 1) false false seen' s
            | false ↦ elim (c == b'}') [
              | true ↦ elim (depth - 1 == 0) [
                | true ↦ some (seen', s)
                | false ↦ json_object_end (depth - 1) false false seen' s
              ]
              | false ↦ json_object_end depth false false seen' s
            ]
          ]
        ]
      ]
    ]

-- The object at a brace; without one there is none.
pub json_object_here : Bytes → Option (Bytes × Bytes)
json_object_here [] = none
json_object_here (c ∷ s) = if c == b'{' then json_object_end 0 false false [] (c ∷ s) else none

-- Without its braces.
pub object_body : Bytes → Bytes
object_body object = take (length object - 2) (drop 1 object)

pub extract_json_object_body : Bytes → Bytes → Option Bytes
extract_json_object_body body key = do
  rest ← json_member_value body key
  object ← json_object_here rest
  some (object_body object.0)

-- What stands behind a colon and its spaces.
pub behind_colon : Bytes → Option Bytes
behind_colon [] = none
behind_colon (c ∷ s) = if c == b':' then some (skip_json_spaces s) else none

-- A key with its value, and what follows.
pub json_pair_at : Bytes → Option (Bytes × Bytes × Bytes)
json_pair_at s = do
  key ← parse_json_string_at s
  rest ← behind_colon (skip_json_spaces key.1)
  value ← parse_json_string_at rest
  some (key.0, value.0, value.1)

-- The loop over the pairs, each of which has at least four bytes.
pub json_pairs : ℕ → StringMap → Bytes → StringMap
json_pairs zero values s = values
json_pairs (suc rounds) values s = elim (json_pair_at (skip_json_separators s)) [
  | none ↦ values
  | some (key, value, rest) ↦ json_pairs rounds (map_assign key value values) rest
]

pub parse_flat_json_string_map : Bytes → StringMap
parse_flat_json_string_map text = json_pairs (length text) [] text

-- The loop over the records of the array, each of which has at least two bytes. A value that is no
-- object drops them all; an object that is not closed ends the loop.
unfoldable pub json_records : ℕ → List Bytes → Bytes → List Bytes
json_records zero records s = records
json_records (suc rounds) records s = elim (skip_json_separators s) [
  | [] ↦ records
  | c ∷ rest ↦
      if c == b']'
      then records
      else if not (c == b'{')
      then []
      else elim (json_object_end 0 false false [] (c ∷ rest)) [
        | none ↦ records
        | some (object, behind) ↦ json_records rounds (records ++ object ∷ []) behind
      ]
]

unfoldable pub json_array_at : Bytes → List Bytes
json_array_at [] = []
json_array_at (c ∷ s) = if not (c == b'[') then [] else json_records (length s) [] s

unfoldable pub extract_json_records_array : Bytes → List Bytes
extract_json_records_array body = elim (json_member_value body (codes "records")) [
  | none ↦ []
  | some rest ↦ json_array_at rest
]
