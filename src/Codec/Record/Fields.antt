-- ===== src/Codec/Record/Fields.antt =====
-- The fields of a body: `extract_field` and `split_payload_field` of src/record_codec.cc on fields
-- joined by tabs.
use mathlib.Core.Path.{ap₂}
use seastar_log_engine.Prelude.{
  ℕ, suc, ◌+◌, ◌<◌, ◌≡◌, ◌≢◌, refl, sym, ap, ◌∙◌, false, Option, none, some, List, [], ◌∷◌, ◌++◌,
  append_assoc, append-nil, arith, Bytes, codes, length, length-append, drop, take-length-append,
  All, All-append, All-mono, find_text, starts_with, if◌then◌else◌,
}
use seastar_log_engine.Codec.Encode.Join.{join, join-sep, sep}
use seastar_log_engine.Codec.Record.{
  extract_field, extract_field_loop, split_payload_field, header_of_body,
}
use seastar_log_engine.Codec.Record.Find.{Lacks, find_text-skip, find_text-here}

-- The value of the first field with a key.
unfoldable pub find_field : Bytes → List Bytes → Option Bytes
find_field key [] = none
find_field key (f ∷ fields) =
    if starts_with key f then some (drop (length key) f) else find_field key fields

extract_field_loop-token :
    (key token f rest : Bytes)
    → Lacks b'\t' f
    → extract_field_loop key token (f ++ b'\t' ∷ rest) ≡ (
        if starts_with key (token ++ f)
        then some (drop (length key) (token ++ f))
        else extract_field_loop key [] rest)
unfolding extract_field_loop
extract_field_loop-token key token [] rest h = rw (append-nil token) (ground arith)
extract_field_loop-token key token (c ∷ f) rest h = ground (
  arith,
  h.0,
  append_assoc token (c ∷ []) f,
  extract_field_loop-token key (token ++ c ∷ []) f rest h.1,
)

extract_field_loop-last :
    (key token f : Bytes)
    → Lacks b'\t' f
    → extract_field_loop key token f
      ≡ (if starts_with key (token ++ f) then some (drop (length key) (token ++ f)) else none)
unfolding extract_field_loop
extract_field_loop-last key token [] h = rw (append-nil token)
extract_field_loop-last key token (c ∷ f) h =
    ground (
      arith,
      h.0,
      append_assoc token (c ∷ []) f,
      extract_field_loop-last key (token ++ c ∷ []) f h.1,
    )

-- Reading a field from joined fields finds the first with its key.
pub extract_field-join :
    (key f : Bytes) (fields : List Bytes)
    → All (Lacks b'\t') (f ∷ fields)
    → extract_field (join (f ∷ fields)) key ≡ find_field key (f ∷ fields)
unfolding extract_field find_field join
extract_field-join key f [] h = extract_field_loop-last key [] f h.0
extract_field-join key f (g ∷ fields) h =
    let rest = extract_field-join key g fields h.1 in
    extract_field_loop-token key [] f (join (g ∷ fields)) h.0
    ∙ ap (λ r. if starts_with key f then some (drop (length key) f) else r) rest

pub extract_field-join_last :
    (key : Bytes) (fields : List Bytes) (last : Bytes)
    → All (Lacks b'\t') (fields ++ last ∷ [])
    → extract_field (join (fields ++ last ∷ [])) key ≡ find_field key (fields ++ last ∷ [])
extract_field-join_last key [] last h = extract_field-join key last [] h
extract_field-join_last key (f ∷ fields) last h = extract_field-join key f (fields ++ last ∷ []) h

-- A field of the header: no tab, and its key does not start like that of the payload.
abbrev pub IsHeader : Bytes → Type 0
IsHeader [] = 0 < 0
IsHeader (c ∷ f) = (c ≢ b'p') × Lacks b'\t' (c ∷ f)

pub IsHeader-Lacks : (f : Bytes) → IsHeader f → Lacks b'\t' f
IsHeader-Lacks [] h = tt
IsHeader-Lacks (c ∷ f) h = h.1

abbrev payload_mark : Bytes
payload_mark = codes "\tpayload="

join_marked : List Bytes → Bytes → Bytes
join_marked fields rest = join fields ++ (payload_mark ++ rest)

find_text-tab :
    (s : Bytes) (k : ℕ)
    → starts_with (codes "p") s ≡ false
    → find_text payload_mark s ≡ some k
    → find_text payload_mark (b'\t' ∷ s) ≡ some (suc k)
find_text-tab [] k h e = ground arith
find_text-tab (c ∷ s) k h e = ground arith

IsHeader-starts_with : (f rest : Bytes) → IsHeader f → starts_with (codes "p") (f ++ rest) ≡ false
IsHeader-starts_with [] rest h = absurd (omega (arith, h))
IsHeader-starts_with (c ∷ f) rest h = ground (arith, h.0)

pub join-starts_with :
    (f : Bytes) (fields : List Bytes) (rest : Bytes)
    → All IsHeader (f ∷ fields)
    → starts_with (codes "p") (join (f ∷ fields) ++ rest) ≡ false
unfolding join
join-starts_with f [] rest h = IsHeader-starts_with f rest h.0
join-starts_with f (g ∷ fields) rest h =
    ap (starts_with (codes "p")) (append_assoc f (b'\t' ∷ join (g ∷ fields)) rest)
    ∙ IsHeader-starts_with f _ h.0

pub find_text-join :
    (f : Bytes) (fields : List Bytes) (rest : Bytes)
    → All IsHeader (f ∷ fields)
    → find_text (codes "\tpayload=") (join (f ∷ fields) ++ (codes "\tpayload=" ++ rest))
      ≡ some (length (join (f ∷ fields)))
unfolding join
find_text-join f [] rest h =
    find_text-skip b'\t' (codes "payload=") f (payload_mark ++ rest) 0 (IsHeader-Lacks f h.0)
      (find_text-here b'\t' (codes "payload=") rest)
    ∙ ap some (omega arith)
find_text-join f (g ∷ fields) rest h =
    let tail = join (g ∷ fields) ++ (payload_mark ++ rest) in
    let behind : find_text payload_mark (b'\t' ∷ tail) ≡ some (suc (length (join (g ∷ fields)))) =
      find_text-tab tail (length (join (g ∷ fields)))
        (join-starts_with g fields (payload_mark ++ rest) h.1) (find_text-join g fields rest h.1) in
    ap (find_text payload_mark) (append_assoc f (b'\t' ∷ join (g ∷ fields)) (payload_mark ++ rest))
    ∙ find_text-skip b'\t' (codes "payload=") f (b'\t' ∷ tail) (suc (length (join (g ∷ fields))))
        (IsHeader-Lacks f h.0) behind
    ∙ ap some (sym (length-append f (b'\t' ∷ join (g ∷ fields))))

-- The body with its payload field: what `join` gives, with the mark written out.
pub join-payload :
    (f : Bytes) (fields : List Bytes) (text : Bytes)
    → join ((f ∷ fields) ++ (codes "payload=" ++ text) ∷ [])
      ≡ join (f ∷ fields) ++ (codes "\tpayload=" ++ text)
join-payload f fields text = unfold sep in join-sep (f ∷ fields) (codes "payload=" ++ text)

pub header_of_body-join :
    (f : Bytes) (fields : List Bytes) (text : Bytes)
    → All IsHeader (f ∷ fields)
    → header_of_body (join ((f ∷ fields) ++ (codes "payload=" ++ text) ∷ [])) ≡ join (f ∷ fields)
unfolding header_of_body
header_of_body-join f fields text h =
    ap header_of_body (join-payload f fields text)
    ∙ rw (header_of_body, find_text-join f fields text h)
        (take-length-append (join (f ∷ fields)) (codes "\tpayload=" ++ text))

drop-mark : (s text : Bytes) → drop (length s + 9) (s ++ (codes "\tpayload=" ++ text)) ≡ text
drop-mark [] text = refl
drop-mark (c ∷ s) text =
    ap (λ n. drop n (c ∷ (s ++ (codes "\tpayload=" ++ text)))) {y = suc (length s + 9)}
      (omega arith)
    ∙ drop-mark s text

starts_with-payload :
    (s : Bytes) → starts_with (codes "p") s ≡ false → starts_with (codes "payload=") s ≡ false
starts_with-payload [] h = refl
starts_with-payload (c ∷ s) h = ground arith

-- The fields in front of the payload, and the payload.
pub split_payload_field-join :
    (fields : List Bytes) (text : Bytes)
    → All IsHeader fields
    → split_payload_field (join (fields ++ (codes "payload=" ++ text) ∷ []))
      ≡ some (join fields, text)
unfolding split_payload_field
split_payload_field-join [] text h = unfold join in refl
split_payload_field-join (f ∷ fields) text h =
    rw
      (
        split_payload_field,
        join-payload f fields text,
        starts_with-payload _ (join-starts_with f fields (codes "\tpayload=" ++ text) h),
        find_text-join f fields text h,
      )
      (ap some (
        ap₂ (λ a b. (a, b)) (take-length-append (join (f ∷ fields)) _)
          (drop-mark (join (f ∷ fields)) text)))

pub IsHeader-find :
    (fields : List Bytes) (text : Bytes)
    → All IsHeader fields
    → Lacks b'\t' text
    → All (Lacks b'\t') (fields ++ (codes "payload=" ++ text) ∷ [])
IsHeader-find fields text h k =
    All-append (Lacks b'\t') fields ((codes "payload=" ++ text) ∷ [])
      (All-mono IsHeader (Lacks b'\t') IsHeader-Lacks fields h)
      (All-append (λ b. b ≢ b'\t') (codes "payload=") text (omega arith) k, tt)
