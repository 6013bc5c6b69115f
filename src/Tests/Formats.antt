-- ===== src/Tests/Formats.antt =====
-- The theorems on headers, values, properties and filters at concrete inputs.
use mqtt_wasi.Prelude.{◌≡◌, refl, true, false, some, [], ◌∷◌, ◌++◌, arith, length}
use mqtt_wasi.Errors.{ok, err, Ends}
use mqtt_wasi.Codec.Words.{Bytes}
use mqtt_wasi.Codec.Types.{PacketType, packet_type_code, at_least_once}
use mqtt_wasi.Codec.FixedHeader.{encode_fixed_header, decode_fixed_header, validate_fixed_header}
use mqtt_wasi.Codec.FixedHeader.RoundTrip.{
  header, header_bytes, IsHeader, encode_fixed_header-inv, decode_fixed_header_lem,
}
use mqtt_wasi.Codec.Encode.{encode_variable_int, encode_variable_int_loop, encode_string}
use mqtt_wasi.Codec.VariableInt.{variable_int}
use mqtt_wasi.Codec.Topic.{validate_topic_name}
use mqtt_wasi.Codec.Cursor.{read_variable_int}
use mqtt_wasi.Codec.Properties.{PropertyContext, PropertyId, property_id_code, same_id, allows}
use mqtt_wasi.Codec.Properties.Validate.{validate_property, is_forbidden}
use mqtt_wasi.Codec.Properties.Encode.{
  encode_for, encode_inner, encode_entries, encode_entry, encode_value,
}
use mqtt_wasi.Codec.Properties.Decode.{decode_for}
use mqtt_wasi.Codec.Properties.Format.{entries_bytes, entry_bytes, value_bytes}
use mqtt_wasi.Codec.Cursor.{read_u8, ensure, variable_int_loop}
use mqtt_wasi.Codec.Words.{u32_mod}
use mqtt_wasi.Codec.Encode.{variable_int_max}
use mqtt_wasi.Codec.Properties.Section.{
  section_bytes, encode_inner-inv, encode_inner_lem, length-section_bytes,
}
use mqtt_wasi.Codec.Properties.Format.{AreAccepted, encode_entries-inv}
use mqtt_wasi.Codec.Properties.Encode.{encoded_len}
use mqtt_wasi.Codec.Properties.Safe.{Safe-decode_for}
use mqtt_wasi.Codec.Cursor.Safe.{Safe}
use mqtt_wasi.Codec.Cursor.Views.{Reads}
use mqtt_wasi.Codec.FixedHeader.RoundTrip.{decode_fixed_header-short}
use mqtt_wasi.Codec.FixedHeader.Safe.{decode_fixed_header-Ends}
use mqtt_wasi.Codec.VariableInt.Short.{end_of_data}
use mqtt_wasi.Codec.VariableInt.{Reads-variable_int, encode_variable_int_lem}
use mqtt_wasi.Errors.{packet_too_large}
use mqtt_wasi.Prelude.{ltb, if◌then◌else◌, ◌↔◌, ◌≤◌, ◌<◌}
use mqtt_wasi.Codec.Subscribe.Encode.{validate_suback_codes}
use mqtt_wasi.Codec.Subscribe.Codes.{Granted, validate_suback_codes_iff}
use mqtt_wasi.Codec.Properties.{
  response_topic_of, correlation_data_of, set_response_topic, set_correlation_data,
}
use mqtt_wasi.Codec.Properties.Replace.{set-read}
use mqtt_wasi.Codec.Strings.{IsWritable, prefixed, encode_string-inv}
use mqtt_wasi.Codec.Topic.{validate_filter_levels}
use mqtt_wasi.Codec.Topic.Wildcards.{are_wildcards_placed, validate_filter_levels_iff}
use mqtt_wasi.Codec.Properties.Checked.{AreChecked, decode_for-AreChecked}
use mqtt_wasi.Codec.Cursor.Yields.{Yields}
use mqtt_wasi.Codec.Connect.{is_connack_reason_code}
use mqtt_wasi.Codec.Connect.Decode.{read_connack, decode_connack}
use mqtt_wasi.Codec.Connect.Capabilities.{ServerCapabilities, from_connack}
use mqtt_wasi.Codec.Connect.Negotiated.{from_connack-decode_connack}
use mqtt_wasi.Codec.Packets.{ConnAckPacket}
use mqtt_wasi.Codec.Properties.{property_id_from_u8, byte}
use mqtt_wasi.Codec.Properties.Validate.{register_property_id}
use mqtt_wasi.Codec.Properties.Decode.{
  decode_inner, decode_section, decode_entries, decode_entry, decode_known, decode_value, check_end,
}
use mqtt_wasi.Tests.{request_properties, request_section, section-written}
use mqtt_wasi.Codec.Subscribe.Encode.{encode_subscriptions, subscribe_body, encode_subscribe}
use mqtt_wasi.Codec.Subscribe.Body.{subscribe_bytes, IsSubscribable, encode_subscribe-inv}
use mqtt_wasi.Codec.Packets.{SubscribePacket}
use mqtt_wasi.Codec.Types.{qos_code}
use mqtt_wasi.Codec.Topic.{validate_topic_filter}
use mqtt_wasi.Codec.Encode.{encode_u16}
use mqtt_wasi.Codec.Properties.{no_properties}

request-small : length (entries_bytes request_properties.entries) < u32_mod
request-small = unfold entries_bytes entry_bytes value_bytes in omega arith

inner-written :
    encode_inner (some PropertyContext.publish) request_properties [] ≡ ok request_section
inner-written = unfold encode_for in section-written

encode_inner-inv_example :
    (length (entries_bytes request_properties.entries) ≤ variable_int_max)
    × AreAccepted (some PropertyContext.publish) [] request_properties.entries
    × (request_section ≡ section_bytes request_properties)
encode_inner-inv_example =
    encode_inner-inv (some PropertyContext.publish) request_properties [] request-small
      inner-written

inner-short : length (entries_bytes request_properties.entries) ≤ variable_int_max
inner-short = unfold entries_bytes entry_bytes value_bytes in omega arith

entries-written :
    encode_entries (some PropertyContext.publish) [] request_properties.entries []
    ≡ ok (0x08 ∷ 0 ∷ 3 ∷ b'r' ∷ b'/' ∷ b'1' ∷ 0x26 ∷ 0 ∷ 1 ∷ b'k' ∷ 0 ∷ 1 ∷ b'v' ∷ [])
unfolding encode_entries encode_entry encode_value validate_property is_forbidden allows same_id
    property_id_code encode_variable_int encode_variable_int_loop encode_string validate_topic_name
entries-written = refl

inner-accepted : AreAccepted (some PropertyContext.publish) [] request_properties.entries
inner-accepted =
    encode_entries-inv (some PropertyContext.publish) [] request_properties.entries []
      entries-written

encode_inner_lem_example :
    encode_inner (some PropertyContext.publish) request_properties (1 ∷ [])
    ≡ ok (1 ∷ section_bytes request_properties)
encode_inner_lem_example =
    encode_inner_lem (some PropertyContext.publish) request_properties (1 ∷ []) inner-short
      inner-accepted

Safe-decode_for_example : Safe 1 (decode_for PropertyContext.conn_ack)
Safe-decode_for_example = Safe-decode_for PropertyContext.conn_ack

subscribe-IsHeader : IsHeader (header PacketType.subscribe 2 300)
subscribe-IsHeader = record {
  nibble = omega arith;
  valid = unfold validate_fixed_header in refl;
  short = omega arith;
}

decode_fixed_header_lem_example :
    decode_fixed_header (header_bytes (header PacketType.subscribe 2 300) ++ 7 ∷ [])
    ≡ ok (
      header PacketType.subscribe 2 300,
      length (header_bytes (header PacketType.subscribe 2 300)),
    )
decode_fixed_header_lem_example =
    decode_fixed_header_lem (header PacketType.subscribe 2 300) (7 ∷ []) subscribe-IsHeader

header-written : encode_fixed_header [] PacketType.subscribe 2 300 ≡ ok (0x82 ∷ 0xAC ∷ 2 ∷ [])
unfolding encode_fixed_header packet_type_code validate_fixed_header encode_variable_int
    encode_variable_int_loop
header-written = refl

encode_fixed_header-inv_example :
    IsHeader (header PacketType.subscribe 2 300)
    × ((0x82 ∷ 0xAC ∷ 2 ∷ []) ≡ header_bytes (header PacketType.subscribe 2 300))
encode_fixed_header-inv_example =
    encode_fixed_header-inv [] (header PacketType.subscribe 2 300) header-written

decode_fixed_header-short_example : decode_fixed_header (0x82 ∷ 0xAC ∷ []) ≡ err end_of_data
decode_fixed_header-short_example =
    decode_fixed_header-short (header PacketType.subscribe 2 300) 0x82 (0xAC ∷ []) 2 []
      subscribe-IsHeader (unfold header_bytes packet_type_code variable_int in refl)

Reads-variable_int_example : Reads read_variable_int (variable_int 300) 300
Reads-variable_int_example = Reads-variable_int 300 (omega arith)

encode_variable_int_lem_example : encode_variable_int (9 ∷ []) 300 ≡ (
    if ltb variable_int_max 300
    then err (packet_too_large 300 variable_int_max)
    else ok (9 ∷ variable_int 300))
encode_variable_int_lem_example = encode_variable_int_lem (9 ∷ []) 300

validate_suback_codes_iff_example :
    (validate_suback_codes (0 ∷ 1 ∷ []) (at_least_once ∷ at_least_once ∷ []) ≡ ok tt)
    ↔ Granted (0 ∷ 1 ∷ []) (at_least_once ∷ at_least_once ∷ [])
validate_suback_codes_iff_example =
    validate_suback_codes_iff (0 ∷ 1 ∷ []) (at_least_once ∷ at_least_once ∷ [])

set-read_example :
    (response_topic_of (set_response_topic (b'x' ∷ []) request_properties) ≡ some (b'x' ∷ []))
    × (correlation_data_of (set_correlation_data (1 ∷ []) request_properties) ≡ some (1 ∷ []))
    × (correlation_data_of (set_response_topic (b'x' ∷ []) request_properties)
        ≡ correlation_data_of request_properties)
    × (response_topic_of (set_correlation_data (1 ∷ []) request_properties)
        ≡ response_topic_of request_properties)
set-read_example = set-read (b'x' ∷ []) (1 ∷ []) request_properties

length-section_bytes_example :
    length (section_bytes request_properties) ≡ encoded_len request_properties
length-section_bytes_example = length-section_bytes request_properties request-small

decode_fixed_header-Ends_example :
    Ends (decode_fixed_header (0x30 ∷ 255 ∷ 255 ∷ 255 ∷ 255 ∷ 255 ∷ []))
decode_fixed_header-Ends_example =
    decode_fixed_header-Ends (0x30 ∷ 255 ∷ 255 ∷ 255 ∷ 255 ∷ 255 ∷ [])

encode_string-inv_example :
    IsWritable (b'a' ∷ []) × ((0 ∷ 1 ∷ b'a' ∷ []) ≡ [] ++ prefixed (b'a' ∷ []))
encode_string-inv_example = encode_string-inv [] (b'a' ∷ []) (unfold encode_string in refl)

validate_filter_levels_iff_example :
    (validate_filter_levels (b'a' ∷ b'/' ∷ b'+' ∷ b'/' ∷ b'#' ∷ []) ≡ ok tt)
    ↔ (are_wildcards_placed true (b'a' ∷ b'/' ∷ b'+' ∷ b'/' ∷ b'#' ∷ []) ≡ true)
validate_filter_levels_iff_example =
    validate_filter_levels_iff (b'a' ∷ b'/' ∷ b'+' ∷ b'/' ∷ b'#' ∷ [])

plus_then_hash : are_wildcards_placed true (b'a' ∷ b'/' ∷ b'+' ∷ b'/' ∷ b'#' ∷ []) ≡ true
plus_then_hash = unfold are_wildcards_placed in refl

hash_within : are_wildcards_placed true (b'a' ∷ b'#' ∷ []) ≡ false
hash_within = unfold are_wildcards_placed in refl

decode_for-AreChecked_example :
    Yields (λ props. AreChecked props.entries) (decode_for PropertyContext.conn_ack)
decode_for-AreChecked_example = decode_for-AreChecked PropertyContext.conn_ack

-- A CONNACK that announces a maximum QoS of 0.
abbrev connack_body : Bytes
connack_body = 0 ∷ 0 ∷ 2 ∷ 0x24 ∷ 0 ∷ []

abbrev connack : ConnAckPacket
connack = record {
  session_present = false;
  reason_code = 0;
  properties = record { entries = (PropertyId.maximum_qos, byte 0) ∷ [] };
}

connack-read : decode_connack connack_body ≡ ok connack
unfolding decode_connack read_connack read_u8 ensure is_connack_reason_code decode_for decode_inner
    read_variable_int variable_int_loop decode_section decode_entries decode_entry is_forbidden
    allows register_property_id property_id_from_u8 decode_known decode_value check_end
    validate_property
connack-read = refl

from_connack-decode_connack_example :
    (capabilities : ServerCapabilities) × (from_connack connack ≡ some capabilities)
from_connack-decode_connack_example = from_connack-decode_connack connack_body connack-read

abbrev subscription : SubscribePacket
subscription = record {
  packet_id = 9;
  filters = (b'a' ∷ b'/' ∷ b'#' ∷ [], at_least_once) ∷ [];
  properties = no_properties;
}

abbrev subscription_frame : Bytes
subscription_frame = 0x82 ∷ 9 ∷ 0 ∷ 9 ∷ 0 ∷ 0 ∷ 3 ∷ b'a' ∷ b'/' ∷ b'#' ∷ 1 ∷ []

subscription-written : encode_subscribe subscription ≡ ok subscription_frame
unfolding encode_subscribe subscribe_body encode_subscriptions encode_for encode_inner
    encode_entries encode_fixed_header packet_type_code qos_code validate_fixed_header
    validate_topic_filter validate_filter_levels encode_string encode_u16 encode_variable_int
    encode_variable_int_loop
subscription-written = refl

encode_subscribe-inv_example :
    IsSubscribable subscription
    × (subscription_frame
        ≡ header_bytes (header PacketType.subscribe 0x02 (length (subscribe_bytes subscription)))
          ++ subscribe_bytes subscription)
encode_subscribe-inv_example = encode_subscribe-inv subscription (omega arith) subscription-written
