-- ===== src/Codec/Properties/Format.antt =====
-- The wire format of a property section, and when the encoder accepts a list of properties.
use mqtt_wasi.Prelude.{
  ◌≤◌, ◌<◌, ◌≡◌, refl, ap, Bool, false, not, ◌&&◌, Option, List, [], ◌∷◌, ◌++◌, append_assoc,
  append-nil, arith, le→ltb, any, length, All,
}
use mqtt_wasi.Errors.{ok, bind-eq-ok, fail_if, fail_if-eq-ok}
use mqtt_wasi.Codec.Words.{Bytes, u16_bytes, u32_bytes}
use mqtt_wasi.Codec.Utf8.{IsText}
use mqtt_wasi.Codec.Encode.{encode_variable_int, encode_u16, encode_string, variable_int_max}
use mqtt_wasi.Codec.VariableInt.{variable_int_small, encode_variable_int_lem}
use mqtt_wasi.Codec.Strings.{
  prefixed, IsWritable, encode_string_lem, encode_string-inv, encode_binary_lem, encode_binary-inv,
}
use mqtt_wasi.Codec.Properties.{
  PropertyId, user_property, property_id_code, same_id, PropertyValue, byte, u16, u32, str, binary,
  string_pair, PropertyContext, Entry,
}
use mqtt_wasi.Codec.Properties.Validate.{validate_property, is_forbidden}
use mqtt_wasi.Codec.Properties.Encode.{encode_value, encode_entry, encode_entries}

unfoldable pub value_bytes : PropertyValue → Bytes
value_bytes (byte b) = b ∷ []
value_bytes (u16 v) = u16_bytes v
value_bytes (u32 v) = u32_bytes v
value_bytes (str s) = prefixed s
value_bytes (binary bytes) = prefixed bytes
value_bytes (string_pair k v) = prefixed k ++ prefixed v

unfoldable pub entry_bytes : Entry → Bytes
entry_bytes (id, value) = property_id_code id ∷ value_bytes value

unfoldable pub entries_bytes : List Entry → Bytes
entries_bytes [] = []
entries_bytes (entry ∷ entries) = entry_bytes entry ++ entries_bytes entries

-- The strings and the binary data of a value fit their length prefixes.
abbrev pub FitsWire : PropertyValue → Type 0
FitsWire (byte b) = Unit
FitsWire (u16 v) = Unit
FitsWire (u32 v) = Unit
FitsWire (str s) = IsWritable s
FitsWire (binary bytes) = length bytes ≤ 65535
FitsWire (string_pair k v) = IsWritable k × IsWritable v

-- The strings of a value are UTF-8, as every Rust `String` is.
abbrev pub IsTextValue : PropertyValue → Type 0
IsTextValue (byte b) = Unit
IsTextValue (u16 v) = Unit
IsTextValue (u32 v) = Unit
IsTextValue (str s) = IsText s
IsTextValue (binary bytes) = Unit
IsTextValue (string_pair k v) = IsText k × IsText v

abbrev pub AreTexts : List Entry → Type 0
AreTexts = All (λ entry. IsTextValue entry.1)

abbrev pub is_duplicate : List Entry → PropertyId → Bool
is_duplicate previous id =
    not (same_id id user_property) && any (λ entry. same_id entry.0 id) previous

-- The encoder accepts one property behind `previous`.
pub record IsAccepted (context : Option PropertyContext) (previous : List Entry) (entry : Entry)
    : Type 0 where
  pub allowed : is_forbidden context (property_id_code entry.0) ≡ false
  pub valid : validate_property entry.0 entry.1 ≡ ok tt
  pub fresh : is_duplicate previous entry.0 ≡ false
  pub fits : FitsWire entry.1

abbrev pub AreAccepted : Option PropertyContext → List Entry → List Entry → Type 0
AreAccepted context previous [] = Unit
AreAccepted context previous (entry ∷ entries) =
    IsAccepted context previous entry × AreAccepted context (previous ++ entry ∷ []) entries

encode_value_lem :
    (body : Bytes) (value : PropertyValue)
    → FitsWire value
    → encode_value body value ≡ ok (body ++ value_bytes value)
unfolding encode_value value_bytes encode_u16
encode_value_lem body (byte b) f = refl
encode_value_lem body (u16 v) f = refl
encode_value_lem body (u32 v) f = refl
encode_value_lem body (str s) f = encode_string_lem body s f
encode_value_lem body (binary bytes) f = encode_binary_lem body bytes f
encode_value_lem body (string_pair k v) (fk, fv) =
    rw (encode_string_lem body k fk, encode_string_lem (body ++ prefixed k) v fv)
      (ap ok (append_assoc body (prefixed k) (prefixed v)))

encode_value-inv :
    (body : Bytes) (value : PropertyValue) {out : Bytes}
    → encode_value body value ≡ ok out
    → FitsWire value
unfolding encode_value
encode_value-inv body (byte b) h = tt
encode_value-inv body (u16 v) h = tt
encode_value-inv body (u32 v) h = tt
encode_value-inv body (str s) h = (encode_string-inv body s h).0
encode_value-inv body (binary bytes) h = (encode_binary-inv body bytes h).0
encode_value-inv body (string_pair k v) h =
    let (body', hk, hv) = bind-eq-ok (encode_string body k) _ h in
    ((encode_string-inv body k hk).0, (encode_string-inv body' v hv).0)

-- Identifiers are below 128, so that each takes one byte.
pub id-lt : (id : PropertyId) → property_id_code id < 128
unfolding property_id_code
id-lt PropertyId.response_topic = omega arith
id-lt _ = omega arith

encode_id :
    (body : Bytes) (id : PropertyId)
    → encode_variable_int body (property_id_code id) ≡ ok (body ++ property_id_code id ∷ [])
encode_id body id = rw (
  encode_variable_int_lem body (property_id_code id),
  le→ltb variable_int_max (property_id_code id) (omega (arith, id-lt id)),
  variable_int_small (property_id_code id) (id-lt id),
)

encode_entry_lem :
    (context : Option PropertyContext) (previous : List Entry) (entry : Entry) (body : Bytes)
    → IsAccepted context previous entry
    → encode_entry context previous entry body ≡ ok (body ++ entry_bytes entry)
unfolding encode_entry entry_bytes
encode_entry_lem context previous (id, value) body a =
    rw
      (
        a.allowed,
        a.valid,
        a.fresh,
        encode_id body id,
        encode_value_lem (body ++ property_id_code id ∷ []) value a.fits,
      )
      (ap ok (append_assoc body (property_id_code id ∷ []) (value_bytes value)))

encode_entry-inv :
    (context : Option PropertyContext) (previous : List Entry) (entry : Entry) (body : Bytes)
    {out : Bytes}
    → encode_entry context previous entry body ≡ ok out
    → IsAccepted context previous entry
unfolding encode_entry
encode_entry-inv context previous (id, value) body h =
    let (_, h₁, rest₁) = bind-eq-ok _ _ h in
    let (_, h₂, rest₂) = bind-eq-ok (validate_property id value) _ rest₁ in
    let (_, h₃, rest₃) = bind-eq-ok (fail_if (is_duplicate previous id) _) _ rest₂ in
    let (body', h₄, h₅) = bind-eq-ok (encode_variable_int body (property_id_code id)) _ rest₃ in
    record {
      allowed = fail_if-eq-ok _ _ h₁;
      valid = h₂;
      fresh = fail_if-eq-ok _ _ h₃;
      fits = encode_value-inv body' value h₅;
    }

-- The loop of the encoder appends the entries exactly when all of them are accepted.
pub encode_entries_lem :
    (context : Option PropertyContext) (previous entries : List Entry) (body : Bytes)
    → AreAccepted context previous entries
    → encode_entries context previous entries body ≡ ok (body ++ entries_bytes entries)
unfolding encode_entries entries_bytes
encode_entries_lem context previous [] body a = rw append-nil
encode_entries_lem context previous (entry ∷ entries) body (a, rest) =
    rw
      (
        encode_entry_lem context previous entry body a,
        encode_entries_lem context (previous ++ entry ∷ []) entries (body ++ entry_bytes entry)
            rest,
      )
      (ap ok (append_assoc body (entry_bytes entry) (entries_bytes entries)))

pub encode_entries-inv :
    (context : Option PropertyContext) (previous entries : List Entry) (body : Bytes) {out : Bytes}
    → encode_entries context previous entries body ≡ ok out
    → AreAccepted context previous entries
unfolding encode_entries
encode_entries-inv context previous [] body h = tt
encode_entries-inv context previous (entry ∷ entries) body h =
    let (body', h₁, h₂) = bind-eq-ok (encode_entry context previous entry body) _ h in
    (
      encode_entry-inv context previous entry body h₁,
      encode_entries-inv context (previous ++ entry ∷ []) entries body' h₂,
    )
