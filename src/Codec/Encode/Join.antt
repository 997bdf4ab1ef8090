-- ===== src/Codec/Encode/Join.antt =====
-- Fields joined by tabs, and the cursor of `encode_record_buffer` (src/record_codec.cc) after them.
use seastar_log_engine.Prelude.{
  ℕ, ◌<◌, ◌≡◌, refl, sym, ap, ◌∙◌, Bool-cases, inl, inr, Bool, true, false, List, [], ◌∷◌, ◌++◌,
  append-nil, append_assoc, arith, Bytes, if◌then◌else◌, All, All-append, u32_modulus,
}
use seastar_log_engine.Codec.Crc.{crc32_update}
use seastar_log_engine.Codec.Crc.Slicing.{
  crc32_update-append, crc32_update-lt, crc32_update-one, crc32_update-nil,
}
use seastar_log_engine.Codec.Crc.Word.{AreBytes}
use seastar_log_engine.Codec.Encode.{
  Cursor, append_literal, is_special, append_space, append_sanitized, append_field_prefix,
  append_field, start,
}

-- The payload with a space for each tab and line end.
unfoldable pub sanitize : Bytes → Bytes
sanitize [] = []
sanitize (c ∷ payload) = (if is_special c then b' ' else c) ∷ sanitize payload

pub sanitize-AreBytes : (p : Bytes) → AreBytes p → AreBytes (sanitize p)
unfolding sanitize
sanitize-AreBytes [] h = tt
sanitize-AreBytes (c ∷ p) h = (ground arith, sanitize-AreBytes p h.1)

-- A cursor whose checksum is a 32-bit word.
abbrev pub Fits : Cursor → Type 0
Fits out = out.crc < u32_modulus

pub append_literal-append :
    (t : Bool) (out : Cursor) (a b : Bytes)
    → Fits out
    → AreBytes a
    → AreBytes b
    → append_literal t (append_literal t out a) b ≡ append_literal t out (a ++ b)
unfolding append_literal
append_literal-append t out a b h ha hb =
    ground (arith, crc32_update-append out.crc a b h ha hb, append_assoc out.text a b)

pub append_literal-Fits :
    (t : Bool) (out : Cursor) (s : Bytes) → Fits out → AreBytes s → Fits (append_literal t out s)
unfolding append_literal
append_literal-Fits t out s h k = ground (arith, crc32_update-lt out.crc s h k)

append_space_lem : (t : Bool) (out : Cursor) → append_space t out ≡ append_literal t out (b' ' ∷ [])
unfolding append_space append_literal
append_space_lem t out = rw (crc32_update-one out.crc b' ')

append_sanitized-special :
    (t : Bool) (out : Cursor) (run p : Bytes) (c : ℕ)
    → is_special c ≡ true
    → append_sanitized t out run (c ∷ p)
      ≡ append_sanitized t (append_space t (append_literal t out run)) [] p
unfolding append_sanitized
append_sanitized-special t out run p c h = ground arith

append_sanitized-plain :
    (t : Bool) (out : Cursor) (run p : Bytes) (c : ℕ)
    → is_special c ≡ false
    → append_sanitized t out run (c ∷ p) ≡ append_sanitized t out (run ++ c ∷ []) p
unfolding append_sanitized
append_sanitized-plain t out run p c h = ground arith

pub append_sanitized_lem :
    (t : Bool) (out : Cursor) (run p : Bytes)
    → Fits out
    → AreBytes run
    → AreBytes p
    → append_sanitized t out run p ≡ append_literal t out (run ++ sanitize p)
unfolding sanitize
append_sanitized_lem t out run [] h hr hp =
    unfold append_sanitized in ap (append_literal t out) (sym (append-nil run))
append_sanitized_lem t out run (c ∷ p) h hr hp = elim (Bool-cases (is_special c)) [
  | inl special ↦
      let done = append_literal t out run in
      let fits : Fits done = append_literal-Fits t out run h hr in
      let spaced : Fits (append_space t done) =
        rw (append_space_lem t done) (append_literal-Fits t done (b' ' ∷ []) fits (omega arith)) in
      rw special (
        append_sanitized-special t out run p c special
        ∙ append_sanitized_lem t (append_space t done) [] p spaced tt hp.1
        ∙ ap (λ (o : Cursor). append_literal t o (sanitize p)) (append_space_lem t done)
        ∙ append_literal-append t done (b' ' ∷ []) (sanitize p) fits (omega arith)
            (sanitize-AreBytes p hp.1)
        ∙ append_literal-append t out run (b' ' ∷ sanitize p) h hr
            (omega arith, sanitize-AreBytes p hp.1))
  | inr plain ↦ rw plain (
      append_sanitized-plain t out run p c plain
      ∙ append_sanitized_lem t out (run ++ c ∷ []) p h
          (All-append (λ b. b < 256) run (c ∷ []) hr (hp.0, tt)) hp.1
      ∙ ap (append_literal t out) (append_assoc run (c ∷ []) (sanitize p)))
]

-- Fields joined by tabs.
unfoldable pub join : List Bytes → Bytes
join [] = []
join (f ∷ []) = f
join (f ∷ g ∷ fields) = f ++ b'\t' ∷ join (g ∷ fields)

abbrev is_nil : List Bytes → Bool
is_nil [] = true
is_nil (f ∷ fields) = false

-- The cursor after some fields.
unfoldable pub cursor_at : Bool → List Bytes → Cursor
cursor_at t fields = record {
  text = join fields;
  crc = if t then crc32_update 0xffffffff (join fields) else 0xffffffff;
  first = is_nil fields;
}

join-snoc :
    (f : Bytes) (fields : List Bytes) (g : Bytes)
    → join ((f ∷ fields) ++ g ∷ []) ≡ join (f ∷ fields) ++ b'\t' ∷ g
unfolding join
join-snoc f [] g = refl
join-snoc f (h ∷ fields) g =
    ap (λ r. f ++ b'\t' ∷ r) (join-snoc h fields g)
    ∙ sym (append_assoc f (b'\t' ∷ join (h ∷ fields)) (b'\t' ∷ g))

pub join-AreBytes : (fields : List Bytes) → All AreBytes fields → AreBytes (join fields)
unfolding join
join-AreBytes [] h = tt
join-AreBytes (f ∷ []) h = h.0
join-AreBytes (f ∷ g ∷ fields) h =
    All-append (λ b. b < 256) f _ h.0 (omega arith, join-AreBytes (g ∷ fields) h.1)

pub cursor_at-Fits :
    (t : Bool) (fields : List Bytes) → All AreBytes fields → Fits (cursor_at t fields)
unfolding cursor_at
cursor_at-Fits t fields h =
    ground (arith, crc32_update-lt 0xffffffff (join fields) (omega arith) (join-AreBytes fields h))

pub cursor_at-nil : (t : Bool) → cursor_at t [] ≡ start
unfolding cursor_at join
cursor_at-nil t = ground (arith, crc32_update-nil 0xffffffff)

-- What stands between some fields and the next one.
unfoldable pub sep : List Bytes → Bytes
sep [] = []
sep (f ∷ fields) = b'\t' ∷ []

pub sep-AreBytes : (fields : List Bytes) → AreBytes (sep fields)
unfolding sep
sep-AreBytes [] = tt
sep-AreBytes (f ∷ fields) = omega arith

pub join-sep :
    (fields : List Bytes) (g : Bytes) → join (fields ++ g ∷ []) ≡ join fields ++ (sep fields ++ g)
unfolding sep
join-sep [] g = unfold join in refl
join-sep (f ∷ fields) g = join-snoc f fields g

is_nil-snoc : (fields : List Bytes) (g : Bytes) → is_nil (fields ++ g ∷ []) ≡ false
is_nil-snoc [] g = refl
is_nil-snoc (f ∷ fields) g = refl

-- The cursor with a field begun.
unfoldable pub opened : Bool → List Bytes → Cursor
opened t fields = record (cursor_at t fields) { first = false }

pub append_field_prefix_lem :
    (t u : Bool) (fields : List Bytes) (key : Bytes)
    → All AreBytes fields
    → AreBytes key
    → append_field_prefix u (cursor_at t fields) key
      ≡ append_literal u (opened t fields) (sep fields ++ key)
unfolding append_field_prefix cursor_at sep opened
append_field_prefix_lem t u [] key h hk = refl
append_field_prefix_lem t u (f ∷ fields) key h hk =
    append_literal-append u (cursor_at t (f ∷ fields)) (b'\t' ∷ []) key
      (cursor_at-Fits t (f ∷ fields) h) (omega arith) hk

advance :
    (t : Bool) (fields : List Bytes) (g : Bytes)
    → All AreBytes fields
    → AreBytes g
    → append_literal t (opened t fields) (sep fields ++ g) ≡ cursor_at t (fields ++ g ∷ [])
unfolding append_literal opened cursor_at
advance t fields g h hg = ground (
  arith,
  join-sep fields g,
  is_nil-snoc fields g,
  crc32_update-append 0xffffffff (join fields) (sep fields ++ g) (omega arith)
      (join-AreBytes fields h) (All-append (λ b. b < 256) (sep fields) g (sep-AreBytes fields) hg),
)

pub append_field_lem :
    (t : Bool) (fields : List Bytes) (key value : Bytes)
    → All AreBytes fields
    → AreBytes key
    → AreBytes value
    → append_field t (cursor_at t fields) key value ≡ cursor_at t (fields ++ (key ++ value) ∷ [])
unfolding append_field
append_field_lem t fields key value h hk hv =
    ap (λ o. append_literal t o value) (append_field_prefix_lem t t fields key h hk)
    ∙ append_literal-append t (opened t fields) (sep fields ++ key) value
        (unfold opened in cursor_at-Fits t fields h)
        (All-append (λ b. b < 256) (sep fields) key (sep-AreBytes fields) hk) hv
    ∙ ap (append_literal t (opened t fields)) (append_assoc (sep fields) key value)
    ∙ advance t fields (key ++ value) h (All-append (λ b. b < 256) key value hk hv)
