-- ===== src/Codec/Publish/Encode.antt =====
-- src/codec/publish.rs: `PublishPacket::encode` and `PubAckPacket::encode`.
use mqtt_wasi.Prelude.{
  ℕ, ◌*◌, ◌%◌, bit_or, not, Option, none, some, [], ◌∷◌, ◌++◌, ◌==◌, if◌then◌else◌, length,
}
use mqtt_wasi.Errors.{Result, ok, err, ◌>>=◌, ◌>>◌, malformed_packet, invalid_reason_code, fail_if}
use mqtt_wasi.Codec.Words.{Bytes, u32_mod}
use mqtt_wasi.Codec.Types.{PacketType, QoS, at_most_once, at_least_once, qos_code}
use mqtt_wasi.Codec.FixedHeader.{encode_fixed_header}
use mqtt_wasi.Codec.Topic.{validate_topic_name}
use mqtt_wasi.Codec.Encode.{encode_string, encode_u16}
use mqtt_wasi.Codec.Properties.{PropertyContext}
use mqtt_wasi.Codec.Properties.Encode.{encode_for}
use mqtt_wasi.Codec.Packets.{PublishPacket, PubAckPacket}
use mqtt_wasi.Codec.Publish.{is_puback_reason_code}

-- the match on `(self.qos, self.packet_id)`
unfoldable pub check_packet_id : QoS → Option ℕ → Result (Unit {0})
check_packet_id at_most_once none = ok tt
check_packet_id at_most_once (some id) =
    err (malformed_packet "QoS 0 PUBLISH has packet identifier")
check_packet_id at_least_once none =
    err (malformed_packet "QoS 1 PUBLISH needs non-zero packet identifier")
check_packet_id at_least_once (some id) =
    fail_if (id == 0) (malformed_packet "QoS 1 PUBLISH needs non-zero packet identifier")

abbrev pub push_packet_id : Bytes → Option ℕ → Bytes
push_packet_id body none = body
push_packet_id body (some id) = encode_u16 body id

-- DUP(3) QoS(2-1) RETAIN(0)
unfoldable pub publish_flags : PublishPacket → ℕ
unfolding qos_code
publish_flags packet =
    let dup_bit = if packet.dup then 0x08 else 0 in
    let with_qos = bit_or dup_bit (qos_code packet.qos * 2) in
    if packet.retain then bit_or with_qos 0x01 else with_qos

unfoldable pub publish_body : PublishPacket → Result Bytes
publish_body packet = do
  check_packet_id packet.qos packet.packet_id
  validate_topic_name packet.topic
  body ← encode_string [] packet.topic
  body' ←
      encode_for packet.properties PropertyContext.publish (push_packet_id body packet.packet_id)
  ok (body' ++ packet.payload)

unfoldable pub encode_publish : PublishPacket → Result Bytes
encode_publish packet = do
  body ← publish_body packet
  header ← encode_fixed_header [] PacketType.publish (publish_flags packet) (length body % u32_mod)
  ok (header ++ body)

unfoldable pub encode_puback : PubAckPacket → Result Bytes
encode_puback packet = do
  fail_if (packet.packet_id == 0) (malformed_packet "PUBACK packet identifier is zero")
  fail_if (not (is_puback_reason_code packet.reason_code)) (invalid_reason_code packet.reason_code)
  if packet.reason_code == 0x00
      then (do
        header ← encode_fixed_header [] PacketType.pub_ack 0 2
        ok (encode_u16 header packet.packet_id))
      else (do
        header ← encode_fixed_header [] PacketType.pub_ack 0 3
        ok (encode_u16 header packet.packet_id ++ packet.reason_code ∷ []))
