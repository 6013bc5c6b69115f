-- ===== src/Codec/Publish/Decode.antt =====
-- src/codec/publish.rs: `PublishPacket::decode` and `PubAckPacket::decode`.
use mqtt_wasi.Prelude.{ℕ, ◌/◌, bit_and, not, Option, none, some, ltb, ◌==◌, if◌then◌else◌}
use mqtt_wasi.Errors.{Result, malformed_packet, invalid_reason_code, fail_if}
use mqtt_wasi.Codec.Words.{Bytes}
use mqtt_wasi.Codec.Types.{QoS, at_most_once, at_least_once, qos_from_u8}
use mqtt_wasi.Codec.Topic.{validate_topic_name}
use mqtt_wasi.Codec.Cursor.{
  Read, ◌>>=◌, ◌>>◌, pure, lift, run, gets, remaining, remaining_bytes, read_u8, read_u16,
  read_string,
}
use mqtt_wasi.Codec.Properties.{PropertyContext}
use mqtt_wasi.Codec.Properties.Decode.{decode_for, skip_properties, check_finished}
use mqtt_wasi.Codec.Packets.{PublishPacket, PubAckPacket}
use mqtt_wasi.Codec.Publish.{is_puback_reason_code}

-- the identifier, which stands there unless the QoS is 0
unfoldable pub read_packet_id : QoS → Read (Option ℕ)
read_packet_id at_most_once = pure none
read_packet_id at_least_once = do
  packet_id ← read_u16
  lift (fail_if (packet_id == 0) (malformed_packet "PUBLISH packet identifier is zero"))
  pure (some packet_id)

unfoldable pub read_publish : ℕ → Read PublishPacket
read_publish flags = do
  let dup = not (bit_and flags 0x08 == 0)
  qos ← lift (qos_from_u8 (bit_and (flags / 2) 0x03))
  let retain = not (bit_and flags 0x01 == 0)
  topic ← read_string
  lift (validate_topic_name topic)
  packet_id ← read_packet_id qos
  properties ← decode_for PropertyContext.publish
  payload ← gets remaining_bytes
  pure (record {
    topic = topic;
    packet_id = packet_id;
    payload = payload;
    qos = qos;
    retain = retain;
    dup = dup;
    properties = properties;
  })

unfoldable pub decode_publish : ℕ → Bytes → Result PublishPacket
decode_publish flags body = run (read_publish flags) body

unfoldable pub read_puback : Read PubAckPacket
read_puback = do
  packet_id ← read_u16
  lift (fail_if (packet_id == 0) (malformed_packet "PUBACK packet identifier is zero"))
  left ← gets remaining
  reason_code ← if ltb 0 left then read_u8 else pure 0x00
  lift (fail_if (not (is_puback_reason_code reason_code)) (invalid_reason_code reason_code))
  skip_properties PropertyContext.pub_ack
  check_finished (malformed_packet "trailing PUBACK bytes")
  pure (record { packet_id = packet_id; reason_code = reason_code })

unfoldable pub decode_puback : Bytes → Result PubAckPacket
decode_puback body = run read_puback body
