-- ===== src/Tests.antt =====
-- The theorems at concrete packets, headers and byte streams.
pub mod Frames
mod Client
mod Parts
mod Driver
pub mod Formats
use mqtt_wasi.Prelude.{◌≡◌, refl, true, false, some, [], ◌∷◌, ◌++◌, arith, length}
use mqtt_wasi.Errors.{ok, Ends}
use mqtt_wasi.Codec.Words.{Bytes}
use mqtt_wasi.Codec.Utf8.{IsText, is_utf8}
use mqtt_wasi.Codec.Types.{PacketType, packet_type_code, at_least_once}
use mqtt_wasi.Codec.FixedHeader.{encode_fixed_header, validate_fixed_header}
use mqtt_wasi.Codec.FixedHeader.RoundTrip.{header}
use mqtt_wasi.Codec.Encode.{
  encode_variable_int, encode_variable_int_loop, encode_string, encode_u16,
}
use mqtt_wasi.Codec.Topic.{validate_topic_name}
use mqtt_wasi.Codec.Cursor.{cursor, advance}
use mqtt_wasi.Codec.Properties.{
  PropertyContext, PropertyId, str, string_pair, Properties, property_id_code, same_id, allows,
}
use mqtt_wasi.Codec.Properties.Validate.{validate_property, is_forbidden}
use mqtt_wasi.Codec.Properties.Encode.{
  encode_for, encode_inner, encode_entries, encode_entry, encode_value,
}
use mqtt_wasi.Codec.Properties.Decode.{decode_for}
use mqtt_wasi.Codec.Properties.Format.{entries_bytes, entry_bytes, value_bytes, AreTexts}
use mqtt_wasi.Codec.Properties.RoundTrip.{decode_for-encode_for}
use mqtt_wasi.Codec.Packets.{PublishPacket, PubAckPacket, DisconnectPacket, Packet}
use mqtt_wasi.Codec.Packet.{decode_packet}
use mqtt_wasi.Codec.Packet.Frames.{IsFrame}
use mqtt_wasi.Codec.Packet.Safe.{decode_packet-Ends}
use mqtt_wasi.Codec.Publish.Encode.{
  encode_publish, publish_body, publish_flags, check_packet_id, encode_puback,
}
use mqtt_wasi.Codec.Publish.{is_puback_reason_code}
use mqtt_wasi.Codec.Publish.RoundTrip.{IsFrame-encode_publish}
use mqtt_wasi.Codec.Publish.AckRoundTrip.{IsFrame-encode_puback}
use mqtt_wasi.Codec.Ping.{is_disconnect_reason_code}
use mqtt_wasi.Codec.Ping.Encode.{encode_disconnect}
use mqtt_wasi.Codec.Ping.RoundTrip.{IsFrame-encode_disconnect}

-- Properties that an RPC request carries.
abbrev request_properties : Properties
request_properties = record {
  entries =
      (PropertyId.response_topic, str (b'r' ∷ b'/' ∷ b'1' ∷ []))
      ∷ (PropertyId.user_property, string_pair (b'k' ∷ []) (b'v' ∷ []))
      ∷ [];
}

abbrev request_section : Bytes
request_section = 13 ∷ 0x08 ∷ 0 ∷ 3 ∷ b'r' ∷ b'/' ∷ b'1' ∷ 0x26 ∷ 0 ∷ 1 ∷ b'k' ∷ 0 ∷ 1 ∷ b'v' ∷ []

abbrev request : PublishPacket
request = record {
  topic = b'a' ∷ b'/' ∷ b'b' ∷ [];
  packet_id = some 5;
  payload = 1 ∷ 2 ∷ [];
  qos = at_least_once;
  retain = true;
  dup = false;
  properties = request_properties;
}

abbrev request_frame : Bytes
request_frame = 0x33 ∷ 23 ∷ 0 ∷ 3 ∷ b'a' ∷ b'/' ∷ b'b' ∷ 0 ∷ 5 ∷ (request_section ++ 1 ∷ 2 ∷ [])

section-written : encode_for request_properties PropertyContext.publish [] ≡ ok request_section
unfolding encode_for encode_inner encode_entries encode_entry encode_value validate_property
    is_forbidden allows same_id property_id_code encode_variable_int encode_variable_int_loop
    encode_string validate_topic_name
section-written = refl

request-written : encode_publish request ≡ ok request_frame
unfolding encode_publish publish_body publish_flags check_packet_id encode_fixed_header
    packet_type_code encode_u16 validate_fixed_header encode_for encode_inner encode_entries
    encode_entry encode_value validate_property is_forbidden allows same_id property_id_code
    encode_variable_int encode_variable_int_loop encode_string validate_topic_name
request-written = refl

request-AreTexts : AreTexts request_properties.entries
request-AreTexts = unfold is_utf8 in (refl, ((refl, refl), tt))

topic-IsText : IsText request.topic
topic-IsText = unfold is_utf8 in refl

decode_for-encode_for_example :
    decode_for PropertyContext.publish (cursor (request_section ++ 9 ∷ []))
    ≡ ok (request_properties, advance (length request_section) (cursor (request_section ++ 9 ∷ [])))
decode_for-encode_for_example =
    decode_for-encode_for PropertyContext.publish request_properties
      (cursor (request_section ++ 9 ∷ [])) (9 ∷ [])
      (unfold entries_bytes entry_bytes value_bytes in omega arith) request-AreTexts section-written
      refl (omega arith) (omega arith)

IsFrame-encode_publish_example : IsFrame request_frame (Packet.publish request)
IsFrame-encode_publish_example =
    IsFrame-encode_publish request topic-IsText request-AreTexts (omega arith) request-written

abbrev ack : PubAckPacket
ack = record { packet_id = 7; reason_code = 0x10 }

ack-written : encode_puback ack ≡ ok (0x40 ∷ 3 ∷ 0 ∷ 7 ∷ 0x10 ∷ [])
unfolding encode_puback is_puback_reason_code encode_fixed_header packet_type_code
    validate_fixed_header encode_variable_int encode_variable_int_loop encode_u16
ack-written = refl

IsFrame-encode_puback_example : IsFrame (0x40 ∷ 3 ∷ 0 ∷ 7 ∷ 0x10 ∷ []) (Packet.pub_ack ack)
IsFrame-encode_puback_example = IsFrame-encode_puback ack ack-written

abbrev goodbye : DisconnectPacket
goodbye = record { reason_code = 0x04 }

goodbye-written : encode_disconnect goodbye ≡ ok (0xE0 ∷ 1 ∷ 0x04 ∷ [])
unfolding encode_disconnect is_disconnect_reason_code encode_fixed_header packet_type_code
    validate_fixed_header encode_variable_int encode_variable_int_loop
goodbye-written = refl

IsFrame-encode_disconnect_example : IsFrame (0xE0 ∷ 1 ∷ 0x04 ∷ []) (Packet.disconnect goodbye)
IsFrame-encode_disconnect_example = IsFrame-encode_disconnect goodbye goodbye-written

decode_packet-Ends_example : Ends (decode_packet (header PacketType.pub_ack 0 2) (0 ∷ 7 ∷ []))
decode_packet-Ends_example = decode_packet-Ends (header PacketType.pub_ack 0 2) (0 ∷ 7 ∷ [])
