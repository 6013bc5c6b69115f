-- ===== src/Codec/Properties/Encode.antt =====
-- src/codec/properties.rs: property sections written, and their lengths.
use mqtt_wasi.Prelude.{ℕ, ◌+◌, ◌%◌, not, ◌&&◌, Option, none, some, List, [], ◌∷◌, ◌++◌, any, length}
use mqtt_wasi.Errors.{Result, ok, ◌>>=◌, ◌>>◌, malformed_packet, fail_if}
use mqtt_wasi.Codec.Words.{Bytes, u32_mod, u32_bytes}
use mqtt_wasi.Codec.Encode.{
  encode_variable_int, encode_u16, encode_string, encode_binary, variable_int_len, string_len,
  binary_len,
}
use mqtt_wasi.Codec.Properties.{
  user_property, property_id_code, same_id, PropertyValue, byte, u16, u32, str, binary, string_pair,
  PropertyContext, Properties, Entry,
}
use mqtt_wasi.Codec.Properties.Validate.{validate_property, is_forbidden}

unfoldable pub encode_value : Bytes → PropertyValue → Result Bytes
encode_value body (byte b) = ok (body ++ b ∷ [])
encode_value body (u16 v) = ok (encode_u16 body v)
encode_value body (u32 v) = ok (body ++ u32_bytes v)
encode_value body (str s) = encode_string body s
encode_value body (binary bytes) = encode_binary body bytes
encode_value body (string_pair k v) = do body' ← encode_string body k; encode_string body' v

-- One round of the loop of `encode_inner`; `previous` is `self.entries[..index]`.
unfoldable pub encode_entry : Option PropertyContext → List Entry → Entry → Bytes → Result Bytes
encode_entry context previous (id, value) body = do
  fail_if (is_forbidden context (property_id_code id))
      (malformed_packet "property is not allowed in this packet")
  validate_property id value
  fail_if (not (same_id id user_property) && any (λ entry. same_id entry.0 id) previous)
      (malformed_packet "duplicate singleton property")
  body' ← encode_variable_int body (property_id_code id)
  encode_value body' value

unfoldable pub encode_entries :
    Option PropertyContext → List Entry → List Entry → Bytes → Result Bytes
encode_entries context previous [] body = ok body
encode_entries context previous (entry ∷ entries) body = do
  body' ← encode_entry context previous entry body
  encode_entries context (previous ++ entry ∷ []) entries body'

unfoldable pub encode_inner : Option PropertyContext → Properties → Bytes → Result Bytes
encode_inner context props buf = do
  body ← encode_entries context [] props.entries []
  buf' ← encode_variable_int buf (length body % u32_mod)
  ok (buf' ++ body)

unfoldable pub encode : Properties → Bytes → Result Bytes
encode props buf = encode_inner none props buf

unfoldable pub encode_for : Properties → PropertyContext → Bytes → Result Bytes
encode_for props context buf = encode_inner (some context) props buf

unfoldable pub value_len : PropertyValue → ℕ
value_len (byte b) = 1
value_len (u16 v) = 2
value_len (u32 v) = 4
value_len (str s) = string_len s
value_len (binary bytes) = binary_len bytes
value_len (string_pair k v) = string_len k + string_len v

unfoldable pub body_len : List Entry → ℕ
body_len [] = 0
body_len ((id, value) ∷ entries) =
    variable_int_len (property_id_code id) + value_len value + body_len entries

unfoldable pub encoded_len : Properties → ℕ
encoded_len props = variable_int_len (body_len props.entries % u32_mod) + body_len props.entries
