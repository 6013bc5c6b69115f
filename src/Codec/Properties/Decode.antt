-- ===== src/Codec/Properties/Decode.antt =====
-- src/codec/properties.rs: property sections read from a cursor.
use mqtt_wasi.Prelude.{
  ℕ, zero, suc, true, false, not, Option, none, some, List, [], ◌∷◌, ltb, ◌==◌, if◌then◌else◌,
}
use mqtt_wasi.Errors
use mqtt_wasi.Errors.{Result, ok, err, malformed_packet, out_of_fuel, fail_if}
use mqtt_wasi.Codec.Words.{checked_add, one_of}
use mqtt_wasi.Codec.Cursor.{
  Read, ◌>>=◌, ◌>>◌, pure, lift, gets, remaining, read_u8, read_u16, read_u32, read_variable_int,
  read_string, read_binary,
}
use mqtt_wasi.Codec.Properties.{
  PropertyId, response_topic, correlation_data, session_expiry_interval, assigned_client_identifier,
  server_keep_alive, reason_string, receive_maximum, topic_alias_maximum, maximum_qos,
  retain_available, maximum_packet_size, wildcard_subscription_available, user_property,
  shared_subscription_available, property_id_from_u8, PropertyValue, byte, u16, u32, str, binary,
  string_pair, PropertyContext, Properties, no_properties, push,
}
use mqtt_wasi.Codec.Properties.Validate.{validate_property, is_forbidden, register_property_id}

-- `match id { ... }` of `decode_inner`
unfoldable pub decode_value : PropertyId → Read PropertyValue
decode_value maximum_qos = do b ← read_u8; pure (byte b)
decode_value retain_available = do b ← read_u8; pure (byte b)
decode_value wildcard_subscription_available = do b ← read_u8; pure (byte b)
decode_value shared_subscription_available = do b ← read_u8; pure (byte b)
decode_value receive_maximum = do v ← read_u16; pure (u16 v)
decode_value server_keep_alive = do v ← read_u16; pure (u16 v)
decode_value topic_alias_maximum = do v ← read_u16; pure (u16 v)
decode_value session_expiry_interval = do v ← read_u32; pure (u32 v)
decode_value maximum_packet_size = do v ← read_u32; pure (u32 v)
decode_value response_topic = do s ← read_string; pure (str s)
decode_value assigned_client_identifier = do s ← read_string; pure (str s)
decode_value reason_string = do s ← read_string; pure (str s)
decode_value correlation_data = do bytes ← read_binary; pure (binary bytes)
decode_value user_property = do k ← read_string; v ← read_string; pure (string_pair k v)

abbrev pub skip : {A : Type 0} → Read A → Read (Unit {0})
skip read = do _ ← read; pure tt

unfoldable pub skip_property_value : ℕ → Read (Unit {0})
skip_property_value id =
    if id == 0x01
    then (do
      b ← read_u8
      lift (fail_if (ltb 1 b) (malformed_packet "payload format indicator must be zero or one")))
    else if id == 0x29
    then (do
      b ← read_u8
      lift (
          fail_if (ltb 1 b)
            (malformed_packet "subscription identifiers available must be zero or one")))
    else if one_of (0x17 ∷ 0x19 ∷ 0x24 ∷ []) id
    then skip read_u8
    else if one_of (0x13 ∷ 0x21 ∷ 0x22 ∷ []) id
    then skip read_u16
    else if one_of (0x02 ∷ 0x11 ∷ 0x18 ∷ 0x27 ∷ []) id
    then skip read_u32
    else if id == 0x0B
    then (do
      v ← read_variable_int
      lift (fail_if (v == 0) (malformed_packet "subscription identifier must be non-zero")))
    else if one_of (0x03 ∷ 0x08 ∷ 0x12 ∷ 0x15 ∷ 0x1A ∷ 0x1C ∷ 0x1F ∷ []) id
    then skip read_string
    else if one_of (0x09 ∷ 0x16 ∷ []) id
    then skip read_binary
    else if id == 0x26
    then (do skip read_string; skip read_string)
    else lift (err (malformed_packet "unknown property id"))

-- `if cur.position() > end { return Err(...) }`
unfoldable pub check_end : ℕ → Read (Unit {0})
check_end end c =
    if ltb end c.pos then err (malformed_packet "property exceeded declared length") else ok (tt, c)

-- The value of a property, behind its identifier: `None` is an identifier outside the typed
-- subset, whose value is skipped.
unfoldable pub decode_known : ℕ → Option PropertyId → ℕ → Properties → Read Properties
decode_known end none id_byte props = do skip_property_value id_byte; check_end end; pure props
decode_known end (some id) id_byte props = do
  value ← decode_value id
  check_end end
  lift (validate_property id value)
  pure (push id value props)

-- One round of the loop of `decode_inner`, over `seen_ids` and `props`.
unfoldable pub decode_entry :
    Option PropertyContext → ℕ → List ℕ → Properties → Read (List ℕ × Properties)
decode_entry context end seen_ids props = do
  raw_id ← read_variable_int
  id_byte ←
      lift (
        if ltb raw_id 256 then ok raw_id else err (malformed_packet "property id exceeds one byte"))
  lift (fail_if (id_byte == 0x23) (malformed_packet "topic alias is not supported"))
  lift (
      fail_if (is_forbidden context id_byte)
        (malformed_packet "property is not allowed in this packet"))
  seen_ids' ← lift (register_property_id seen_ids id_byte context)
  props' ← decode_known end (property_id_from_u8 id_byte) id_byte props
  pure (seen_ids', props')

-- The loop. Every round takes a byte at least, so that the declared length and one more is fuel
-- enough.
unfoldable pub decode_entries :
    Option PropertyContext → ℕ → ℕ → List ℕ → Properties → Read Properties
decode_entries context end zero seen_ids props c = err out_of_fuel
decode_entries context end (suc fuel) seen_ids props c = elim (ltb c.pos end) [
  | true ↦
      Errors.◌>>=◌ (decode_entry context end seen_ids props c)
        λ (state, c'). decode_entries context end fuel state.0 state.1 c'
  | false ↦
      if not (c.pos == end)
      then err (malformed_packet "property length mismatch")
      else ok (props, c)
]

abbrev pub ok_or : {A : Type 0} → Option A → Errors.Error → Result A
ok_or none e = err e
ok_or (some a) e = ok a

-- what `decode_inner` does behind the length prefix
unfoldable pub decode_section : Option PropertyContext → ℕ → Read Properties
decode_section context prop_len c =
    Errors.◌>>◌
      (fail_if (ltb (remaining c) prop_len) (malformed_packet "property length exceeds packet"))
      (Errors.◌>>=◌
        (ok_or (checked_add c.pos prop_len) (malformed_packet "property length overflow"))
        λ end. decode_entries context end (suc prop_len) [] no_properties c)

unfoldable pub decode_inner : Option PropertyContext → Read Properties
decode_inner context = do
  prop_len ← read_variable_int
  if prop_len == 0 then pure no_properties else decode_section context prop_len

unfoldable pub decode : Read Properties
decode = decode_inner none

unfoldable pub decode_for : PropertyContext → Read Properties
decode_for context = decode_inner (some context)

-- `if cur.remaining() > 0 { Properties::decode_for(...)?; }`, whose result is not kept
unfoldable pub skip_properties : PropertyContext → Read (Unit {0})
skip_properties context = do
  left ← gets remaining
  if ltb 0 left then (do _ ← decode_for context; pure tt) else pure tt

-- `if cur.remaining() != 0 { return Err(...) }`
abbrev pub check_finished : Errors.Error → Read (Unit {0})
check_finished e = do left ← gets remaining; lift (fail_if (not (left == 0)) e)
