-- ===== src/Codec/Properties/Section.antt =====
-- The wire format of a whole property section, and when the encoder writes one.
use mqtt_wasi.Prelude.{
  ◌%◌, ◌≤◌, ◌<◌, ◌≡◌, refl, ap, inl, inr, Option, List, [], ◌∷◌, ◌++◌, append_assoc, arith, ltb,
  le→ltb, lt→ltb, ltb→lt, ltb→le, Bool-cases, length, length-append,
}
use mqtt_wasi.Errors.{ok, err, packet_too_large, bind-eq-ok}
use mqtt_wasi.Codec.Words.{Bytes, u32_mod}
use mqtt_wasi.Codec.Encode.{
  encode_variable_int, variable_int_len, string_len, binary_len, variable_int_max,
}
use mqtt_wasi.Codec.VariableInt.{variable_int, encode_variable_int_lem, length-variable_int}
use mqtt_wasi.Codec.Strings.{prefixed}
use mqtt_wasi.Codec.Properties.{
  PropertyId, property_id_code, PropertyValue, byte, u16, u32, str, binary, string_pair,
  PropertyContext, Properties, Entry,
}
use mqtt_wasi.Codec.Properties.Encode.{
  encode_entries, encode_inner, value_len, body_len, encoded_len,
}
use mqtt_wasi.Codec.Properties.Format.{
  value_bytes, entry_bytes, entries_bytes, AreAccepted, encode_entries_lem, encode_entries-inv,
  id-lt,
}

-- A section on the wire.
unfoldable pub section_bytes : Properties → Bytes
section_bytes props =
    variable_int (length (entries_bytes props.entries)) ++ entries_bytes props.entries

-- Properties whose entries take fewer than 2 ^ 28 bytes and are all accepted are written behind
-- `buf`, as their section: the length of the entries, and the entries.
pub encode_inner_lem :
    (context : Option PropertyContext) (props : Properties) (buf : Bytes)
    → length (entries_bytes props.entries) ≤ variable_int_max
    → AreAccepted context [] props.entries
    → encode_inner context props buf ≡ ok (buf ++ section_bytes props)
unfolding encode_inner section_bytes
encode_inner_lem context props buf small a =
    let n = length (entries_bytes props.entries) in
    let e : n % u32_mod ≡ n = omega arith in
    rw
      (
        encode_entries_lem context [] props.entries [] a,
        e,
        encode_variable_int_lem buf n,
        le→ltb variable_int_max n small,
      )
      (ap ok (append_assoc buf (variable_int n) (entries_bytes props.entries)))

entries-accepted :
    (context : Option PropertyContext) (props : Properties) (buf : Bytes) {out : Bytes}
    → encode_inner context props buf ≡ ok out
    → AreAccepted context [] props.entries
unfolding encode_inner
entries-accepted context props buf h =
    encode_entries-inv context [] props.entries []
      (bind-eq-ok (encode_entries context [] props.entries []) _ h).1

-- Behind accepted entries a longer section is refused.
encode_inner_long :
    (context : Option PropertyContext) (props : Properties) (buf : Bytes)
    → length (entries_bytes props.entries) < u32_mod
    → variable_int_max < length (entries_bytes props.entries)
    → AreAccepted context [] props.entries
    → encode_inner context props buf
      ≡ err (packet_too_large (length (entries_bytes props.entries)) variable_int_max)
unfolding encode_inner
encode_inner_long context props buf small long a =
    let n = length (entries_bytes props.entries) in
    let e : n % u32_mod ≡ n = omega arith in
    rw (
      encode_entries_lem context [] props.entries [] a,
      e,
      encode_variable_int_lem buf n,
      lt→ltb variable_int_max n long,
    )

-- Properties of fewer than 2 ^ 32 bytes that the encoder writes take fewer than 2 ^ 28 bytes, every
-- entry is accepted (allowed in the packet, of its identifier's type, within its range, no second
-- of a singleton, with strings that fit), and what was appended is their section.
pub encode_inner-inv :
    (context : Option PropertyContext) (props : Properties) (buf : Bytes) {out : Bytes}
    → length (entries_bytes props.entries) < u32_mod
    → encode_inner context props buf ≡ ok out
    → (length (entries_bytes props.entries) ≤ variable_int_max)
      × AreAccepted context [] props.entries
      × (out ≡ buf ++ section_bytes props)
encode_inner-inv context props buf {out} small h =
    let a = entries-accepted context props buf h in
    let n = length (entries_bytes props.entries) in
    elim (Bool-cases (ltb variable_int_max n)) [
      | inl long ↦ cc (h, encode_inner_long context props buf small (ltb→lt _ _ long) a)
      | inr fits ↦
          let le = ltb→le _ _ fits in (le, a, cc (h, encode_inner_lem context props buf le a))
    ]

pub length-value_bytes : (value : PropertyValue) → length (value_bytes value) ≡ value_len value
unfolding value_bytes value_len string_len binary_len
length-value_bytes (byte b) = refl
length-value_bytes (u16 v) = refl
length-value_bytes (u32 v) = refl
length-value_bytes (str s) = omega arith
length-value_bytes (binary bytes) = omega arith
length-value_bytes (string_pair k v) = omega (arith, length-append (prefixed k) (prefixed v))

variable_int_len-id : (id : PropertyId) → variable_int_len (property_id_code id) ≡ 1
unfolding variable_int_len
variable_int_len-id id = rw (lt→ltb _ _ (id-lt id))

pub length-entries_bytes :
    (entries : List Entry) → length (entries_bytes entries) ≡ body_len entries
unfolding entries_bytes entry_bytes body_len
length-entries_bytes [] = refl
length-entries_bytes ((id, value) ∷ entries) = omega (
  arith,
  length-append (value_bytes value) (entries_bytes entries),
  length-value_bytes value,
  variable_int_len-id id,
  length-entries_bytes entries,
)

-- `encoded_len` is the length of the section, for entries that take fewer than 2 ^ 32 bytes.
pub length-section_bytes :
    (props : Properties)
    → length (entries_bytes props.entries) < u32_mod
    → length (section_bytes props) ≡ encoded_len props
unfolding section_bytes encoded_len
length-section_bytes props small =
    let n = length (entries_bytes props.entries) in
    let e : body_len props.entries % u32_mod ≡ n =
      omega (arith, length-entries_bytes props.entries) in
    rw e (
      omega (
        arith,
        length-append (variable_int n) (entries_bytes props.entries),
        length-variable_int n,
        length-entries_bytes props.entries,
      ))

-- A section that was written takes at least the bytes of its entries.
pub encode_inner-long_enough :
    (context : Option PropertyContext) (props : Properties) (buf : Bytes) {out : Bytes}
    → encode_inner context props buf ≡ ok out
    → length (entries_bytes props.entries) ≤ length out
unfolding encode_inner
encode_inner-long_enough context props buf {out} h =
    let a = entries-accepted context props buf h in
    let body = entries_bytes props.entries in
    let (body', h₁, rest₁) = bind-eq-ok (encode_entries context [] props.entries []) _ h in
    let (buf', h₂, rest₂) = bind-eq-ok (encode_variable_int buf (length body' % u32_mod)) _ rest₁ in
    let e : body' ≡ body = cc (h₁, encode_entries_lem context [] props.entries [] a) in
    let f : out ≡ buf' ++ body' = cc in
    omega (arith, ap length e, ap length f, length-append buf' body')
