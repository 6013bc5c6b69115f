-- ===== src/Codec/Properties/RoundTrip.antt =====
-- src/codec/properties.rs: `Properties::decode_for` on what `Properties::encode_for` wrote.
use mqtt_wasi.Prelude.{
  ℕ, zero, suc, ◌+◌, ◌≤◌, ◌<◌, ◌≡◌, refl, sym, ap, ◌∙◌, true, false, inl, inr, Option, some, List,
  [], ◌∷◌, ◌++◌, append_assoc, append-nil, arith, le→ltb, lt→ltb, ◌==◌, Bool-cases, if◌then◌else◌,
  any, length, length-append,
}
use mqtt_wasi.Errors.{ok}
use mqtt_wasi.Codec.Words.{Bytes, u32_mod, usize_mod}
use mqtt_wasi.Codec.Encode.{variable_int_max}
use mqtt_wasi.Codec.VariableInt.{variable_int, variable_int_small, Reads-variable_int}
use mqtt_wasi.Codec.Cursor.{Cursor, pure, remaining, remaining_bytes, advance, read_variable_int}
use mqtt_wasi.Codec.Cursor.Views.{Reads, remaining_bytes-advance, remaining-eq-length, ok_at}
use mqtt_wasi.Codec.Properties.{
  PropertyId, user_property, property_id_code, property_id_from_u8, same_id, PropertyValue,
  PropertyContext, Properties, Entry, no_properties, push,
}
use mqtt_wasi.Codec.Properties.Validate.{
  validate_property, has_valid_type, is_repeatable, register_property_id,
}
use mqtt_wasi.Codec.Properties.Decode.{
  check_end, decode_known, decode_entry, decode_entries, decode_section, decode_inner,
}
use mqtt_wasi.Codec.Properties.Safe.{entries_more, entries_there}
use mqtt_wasi.Codec.Properties.Format.{
  value_bytes, entry_bytes, entries_bytes, IsTextValue, AreTexts, is_duplicate, IsAccepted,
  AreAccepted, id-lt,
}
use mqtt_wasi.Codec.Properties.Section.{section_bytes, encode_inner-inv}
use mqtt_wasi.Codec.Properties.Encode.{encode_for}
use mqtt_wasi.Codec.Properties.Decode.{decode_for}
use mqtt_wasi.Codec.Properties.Values.{Reads-value}

from_u8-code : (id : PropertyId) → property_id_from_u8 (property_id_code id) ≡ some id
unfolding property_id_from_u8 property_id_code
from_u8-code PropertyId.response_topic = refl
from_u8-code _ = refl

not_topic_alias : (id : PropertyId) → (property_id_code id == 0x23) ≡ false
unfolding property_id_code
not_topic_alias PropertyId.response_topic = refl
not_topic_alias _ = refl

is_repeatable-code :
    (context : Option PropertyContext) (id : PropertyId)
    → is_repeatable context (property_id_code id) ≡ same_id id user_property
unfolding is_repeatable property_id_code same_id
is_repeatable-code context PropertyId.response_topic = refl
is_repeatable-code context _ = refl

-- The identifiers that the decoder has seen behind `previous`.
codes : List Entry → List ℕ
codes [] = []
codes ((id, value) ∷ entries) = property_id_code id ∷ codes entries

codes-concat :
    (previous : List Entry) (id : PropertyId) (value : PropertyValue)
    → codes (previous ++ (id, value) ∷ []) ≡ codes previous ++ property_id_code id ∷ []
unfolding codes
codes-concat [] id value = refl
codes-concat ((i, v) ∷ previous) id value =
    ap (λ r. property_id_code i ∷ r) (codes-concat previous id value)

any-codes :
    (previous : List Entry) (id : PropertyId)
    → any (λ seen. seen == property_id_code id) (codes previous)
      ≡ any (λ entry. same_id entry.0 id) previous
unfolding codes same_id
any-codes [] id = refl
any-codes ((i, v) ∷ previous) id = rw (any-codes previous id)

register-fresh :
    (context : Option PropertyContext) (previous : List Entry) (id : PropertyId)
    → is_duplicate previous id ≡ false
    → register_property_id (codes previous) (property_id_code id) context
      ≡ ok (codes previous ++ property_id_code id ∷ [])
unfolding register_property_id
register-fresh context previous id h = rw (is_repeatable-code context id, any-codes previous id, h)

valid_type :
    (id : PropertyId) (value : PropertyValue)
    → validate_property id value ≡ ok tt
    → has_valid_type id value ≡ true
unfolding validate_property
valid_type id value h = elim (Bool-cases (has_valid_type id value)) [
  | inl valid ↦ valid
  | inr wrong ↦ let h' = rw wrong at h in cc
]

Reads-id :
    (id : PropertyId) → Reads read_variable_int (property_id_code id ∷ []) (property_id_code id)
Reads-id id =
    let e = variable_int_small (property_id_code id) (id-lt id) in
    rw e at (Reads-variable_int (property_id_code id) (omega (arith, id-lt id)))

abbrev listed : List Entry → Properties
listed entries = record { entries = entries }

check_end_lem : (end : ℕ) (c : Cursor) → c.pos ≤ end → check_end end c ≡ ok (tt, c)
unfolding check_end
check_end_lem end c h = rw (le→ltb end c.pos h)

module _ (context : Option PropertyContext) (end : ℕ) where
  known_lem :
      (previous : List Entry) (id : PropertyId) (value : PropertyValue) (c : Cursor) (rest : Bytes)
      → IsAccepted context previous (id, value)
      → IsTextValue value
      → remaining_bytes c ≡ value_bytes value ++ rest
      → c.pos + length (value_bytes value) ≤ end
      → decode_known end (some id) (property_id_code id) (listed previous) c
        ≡ ok (push id value (listed previous), advance (length (value_bytes value)) c)
  unfolding decode_known
  known_lem previous id value c rest a t h fits = rw (
    (Reads-value id value (valid_type id value a.valid) t a.fits).at c rest h,
    check_end_lem end (advance (length (value_bytes value)) c) fits,
    a.valid,
  )

  -- One round of the loop on an entry that the encoder accepted.
  entry_lem :
      (previous : List Entry) (id : PropertyId) (value : PropertyValue) (c : Cursor) (rest : Bytes)
      → IsAccepted context previous (id, value)
      → IsTextValue value
      → remaining_bytes c ≡ entry_bytes (id, value) ++ rest
      → c.pos + length (entry_bytes (id, value)) ≤ end
      → decode_entry context end (codes previous) (listed previous) c
        ≡ ok (
          (codes previous ++ property_id_code id ∷ [], push id value (listed previous)),
          advance (length (entry_bytes (id, value))) c,
        )
  unfolding decode_entry entry_bytes
  entry_lem previous id value c rest a t h fits =
      let bytes = value_bytes value in
      let h₁ = remaining_bytes-advance c (property_id_code id ∷ []) (bytes ++ rest) h in
      rw
        (
          (Reads-id id).at c (bytes ++ rest) h,
          lt→ltb (property_id_code id) 256 (omega (arith, id-lt id)),
          not_topic_alias id,
          a.allowed,
          register-fresh context previous id a.fresh,
          from_u8-code id,
          known_lem previous id value (advance 1 c) rest a t h₁ (omega arith),
        )
        (ok_at _ c (c.pos + 1 + length bytes) (c.pos + suc (length bytes)) (omega arith))

  -- The loop on entries that the encoder accepted, up to the declared end.
  entries_lem :
      (entries previous : List Entry) (fuel : ℕ) (c : Cursor) (rest : Bytes)
      → AreAccepted context previous entries
      → AreTexts entries
      → remaining_bytes c ≡ entries_bytes entries ++ rest
      → c.pos + length (entries_bytes entries) ≡ end
      → length (entries_bytes entries) < fuel
      → decode_entries context end fuel (codes previous) (listed previous) c
        ≡ ok (listed (previous ++ entries), advance (length (entries_bytes entries)) c)
  unfolding entries_bytes
  entries_lem entries previous zero c rest a t h e f = absurd (omega arith)
  entries_lem [] previous (suc fuel) c rest a t h e f =
      rw (entries_there context end fuel (codes previous) (listed previous) c (omega arith)) (
        ap (λ es. ok (listed es, c)) (sym (append-nil previous))
        ∙ ok_at _ c c.pos (c.pos + 0) (omega arith))
  entries_lem ((id, value) ∷ entries) previous (suc fuel) c rest (a, as') (t, ts) h e f =
      let front = entry_bytes (id, value) in
      let back = entries_bytes entries in
      let len = length-append front back in
      let h' = h ∙ append_assoc front back rest in
      let pos : 0 < length front = unfold entry_bytes in omega arith in
      rw
        (
          entries_more context end fuel (codes previous) (listed previous) c (omega arith),
          entry_lem previous id value c (back ++ rest) a t h' (omega arith),
          ← codes-concat previous id value,
          entries_lem entries (previous ++ (id, value) ∷ []) fuel (advance (length front) c) rest
              as' ts (remaining_bytes-advance c front (back ++ rest) h') (omega arith)
              (omega arith),
          append_assoc previous ((id, value) ∷ []) entries,
        )
        (ok_at _ c (c.pos + length front + length back) (c.pos + length (front ++ back))
          (omega arith))

-- A section that was written is read back, whatever follows it, wherever the cursor stands in a
-- slice of less than 2 ^ 64 bytes.
section_lem :
    (context : Option PropertyContext) (entries : List Entry) (c : Cursor) (rest : Bytes)
    → AreAccepted context [] entries
    → AreTexts entries
    → remaining_bytes c ≡ entries_bytes entries ++ rest
    → length c.buf < usize_mod
    → c.pos ≤ length c.buf
    → decode_section context (length (entries_bytes entries)) c
      ≡ ok (listed entries, advance (length (entries_bytes entries)) c)
unfolding decode_section codes
section_lem context entries c rest a t h small within =
    let n = length (entries_bytes entries) in
    let left = remaining-eq-length c in
    let len = length-append (entries_bytes entries) rest in
    let fits : n ≤ remaining c = omega (arith, ap length h) in
    rw (le→ltb (remaining c) n fits, lt→ltb (c.pos + n) usize_mod (omega arith))
      (entries_lem context (c.pos + n) entries [] (suc n) c rest a t h refl (omega arith))

length-entries_pos :
    (entry : Entry) (entries : List Entry) → 0 < length (entries_bytes (entry ∷ entries))
unfolding entries_bytes entry_bytes
length-entries_pos (id, value) entries = omega arith

-- After the length prefix: nothing where that is 0, else the section.
behind_length :
    (context : Option PropertyContext) (entries : List Entry) (c : Cursor) (rest : Bytes)
    → AreAccepted context [] entries
    → AreTexts entries
    → remaining_bytes c ≡ entries_bytes entries ++ rest
    → length c.buf < usize_mod
    → c.pos ≤ length c.buf
    → (if length (entries_bytes entries) == 0
          then pure no_properties
          else decode_section context (length (entries_bytes entries)))
        c
      ≡ ok (listed entries, advance (length (entries_bytes entries)) c)
behind_length context [] c rest a t h bound within =
    unfold entries_bytes in ok_at no_properties c c.pos (c.pos + 0) (omega arith)
behind_length context (entry ∷ entries) c rest a t h bound within =
    let n = length (entries_bytes (entry ∷ entries)) in
    let pos = length-entries_pos entry entries in
    let e : (n == 0) ≡ false = ground arith in
    rw e (section_lem context (entry ∷ entries) c rest a t h bound within)

pub inner_lem :
    (context : Option PropertyContext) (props : Properties) (c : Cursor) (rest : Bytes)
    → length (entries_bytes props.entries) ≤ variable_int_max
    → AreAccepted context [] props.entries
    → AreTexts props.entries
    → remaining_bytes c ≡ section_bytes props ++ rest
    → length c.buf < usize_mod
    → c.pos ≤ length c.buf
    → decode_inner context c ≡ ok (props, advance (length (section_bytes props)) c)
unfolding decode_inner section_bytes
inner_lem context props c rest small a t h bound within =
    let body = entries_bytes props.entries in
    let prefix = variable_int (length body) in
    let h' = h ∙ append_assoc prefix body rest in
    let left = remaining-eq-length c in
    let n₁ = length-append prefix (body ++ rest) in
    let n₂ = length-append prefix body in
    let n₃ = length-append body rest in
    rw
      (
        (Reads-variable_int (length body) small).at c (body ++ rest) h',
        behind_length context props.entries (advance (length prefix) c) rest a t
            (remaining_bytes-advance c prefix (body ++ rest) h') bound
            (omega (arith, ap length h')),
      )
      (ok_at props c (c.pos + length prefix + length body) (c.pos + length (prefix ++ body))
        (omega arith))

-- Properties of fewer than 2 ^ 32 bytes that `encode_for` writes, with strings that are UTF-8, are
-- read back by `decode_for` of the same packet, which takes exactly the bytes that were written,
-- whatever follows them, wherever the cursor stands in a slice of fewer than 2 ^ 64 bytes.
pub decode_for-encode_for :
    (context : PropertyContext) (props : Properties) {section : Bytes} (c : Cursor) (rest : Bytes)
    → length (entries_bytes props.entries) < u32_mod
    → AreTexts props.entries
    → encode_for props context [] ≡ ok section
    → remaining_bytes c ≡ section ++ rest
    → length c.buf < usize_mod
    → c.pos ≤ length c.buf
    → decode_for context c ≡ ok (props, advance (length section) c)
unfolding encode_for decode_for
decode_for-encode_for context props {section} c rest small t e h bound within =
    let (short, a, same) = encode_inner-inv (some context) props [] small e in
    rw same
      (inner_lem (some context) props c rest short a t (h ∙ ap (λ s. s ++ rest) same) bound within)
