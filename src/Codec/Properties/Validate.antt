-- ===== src/Codec/Properties/Validate.antt =====
-- src/codec/properties.rs: the checks that the encoder and the decoder make of one property.
use mqtt_wasi.Prelude.{
  ℕ, Bool, true, false, not, ◌&&◌, ◌||◌, Option, none, some, List, [], ◌∷◌, ◌++◌, ltb, ◌==◌, any,
  is_empty,
}
use mqtt_wasi.Errors.{Result, ok, ◌>>◌, malformed_packet, fail_if}
use mqtt_wasi.Codec.Topic.{validate_topic_name}
use mqtt_wasi.Codec.Properties.{
  PropertyId, response_topic, correlation_data, session_expiry_interval, assigned_client_identifier,
  server_keep_alive, reason_string, receive_maximum, topic_alias_maximum, maximum_qos,
  retain_available, maximum_packet_size, wildcard_subscription_available, user_property,
  shared_subscription_available, property_id_code, PropertyValue, byte, u16, u32, str, binary,
  string_pair, PropertyContext, publish, allows,
}

unfoldable pub has_valid_type : PropertyId → PropertyValue → Bool
has_valid_type response_topic (str s) = true
has_valid_type assigned_client_identifier (str s) = true
has_valid_type reason_string (str s) = true
has_valid_type correlation_data (binary bytes) = true
has_valid_type session_expiry_interval (u32 v) = true
has_valid_type maximum_packet_size (u32 v) = true
has_valid_type server_keep_alive (u16 v) = true
has_valid_type receive_maximum (u16 v) = true
has_valid_type topic_alias_maximum (u16 v) = true
has_valid_type maximum_qos (byte b) = true
has_valid_type retain_available (byte b) = true
has_valid_type wildcard_subscription_available (byte b) = true
has_valid_type shared_subscription_available (byte b) = true
has_valid_type user_property (string_pair k v) = true
has_valid_type _ _ = false

abbrev check_available : ℕ → Result (Unit {0})
check_available value =
    fail_if (ltb 1 value) (malformed_packet "availability property must be zero or one")

unfoldable pub check_value : PropertyId → PropertyValue → Result (Unit {0})
check_value response_topic (str topic) = validate_topic_name topic
check_value assigned_client_identifier (str identifier) =
    fail_if (is_empty identifier) (malformed_packet "assigned client identifier must be non-empty")
check_value receive_maximum (u16 v) =
    fail_if (v == 0) (malformed_packet "receive maximum must be non-zero")
check_value maximum_packet_size (u32 v) =
    fail_if (v == 0) (malformed_packet "maximum packet size must be non-zero")
check_value maximum_qos (byte value) =
    fail_if (ltb 1 value) (malformed_packet "maximum QoS exceeds one")
check_value retain_available (byte value) = check_available value
check_value wildcard_subscription_available (byte value) = check_available value
check_value shared_subscription_available (byte value) = check_available value
check_value _ _ = ok tt

unfoldable pub validate_property : PropertyId → PropertyValue → Result (Unit {0})
unfolding has_valid_type check_value
validate_property id value = do
  fail_if (not (has_valid_type id value)) (malformed_packet "property value has wrong wire type")
  check_value id value

-- `context.is_some_and(|context| !context.allows(id))`
unfoldable pub is_forbidden : Option PropertyContext → ℕ → Bool
is_forbidden none id = false
is_forbidden (some context) id = not (allows context id)

-- `matches!(context, None | Some(PropertyContext::Publish))`
abbrev repeats_subscription_id : Option PropertyContext → Bool
repeats_subscription_id none = true
repeats_subscription_id (some publish) = true
repeats_subscription_id (some _) = false

unfoldable pub is_repeatable : Option PropertyContext → ℕ → Bool
unfolding property_id_code
is_repeatable context id =
    id == property_id_code user_property || (id == 0x0B && repeats_subscription_id context)

-- The identifiers seen so far, with this one.
unfoldable pub register_property_id : List ℕ → ℕ → Option PropertyContext → Result (List ℕ)
unfolding is_repeatable
register_property_id seen_ids id context = do
  fail_if (not (is_repeatable context id) && any (λ seen. seen == id) seen_ids)
      (malformed_packet "duplicate singleton property")
  ok (seen_ids ++ id ∷ [])
