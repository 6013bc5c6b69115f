-- ===== src/Codec/Packet.antt =====
-- src/codec/mod.rs: `Packet::decode`.
pub mod Frames
pub mod Safe
use mqtt_wasi.Prelude.{ℕ, Bool, not, ◌==◌, is_empty, length}
use mqtt_wasi.Errors.{Result, ok, err, ◌>>=◌, ◌>>◌, malformed_packet, unexpected_packet, fail_if}
use mqtt_wasi.Codec.Words.{Bytes}
use mqtt_wasi.Codec.Types.{
  PacketType, connect, conn_ack, publish, pub_ack, pub_rec, pub_rel, pub_comp, subscribe, sub_ack,
  unsubscribe, unsub_ack, ping_req, ping_resp, disconnect, auth, FixedHeader,
}
use mqtt_wasi.Codec.FixedHeader.{validate_fixed_header}
use mqtt_wasi.Codec.Packets.{Packet}
use mqtt_wasi.Codec.Connect.Decode.{decode_connack}
use mqtt_wasi.Codec.Publish.Decode.{decode_publish, decode_puback}
use mqtt_wasi.Codec.Subscribe.Decode.{decode_suback, decode_unsuback}
use mqtt_wasi.Codec.Ping.Decode.{decode_disconnect}

-- the match on the packet type
unfoldable pub decode_body : PacketType → ℕ → Bytes → Result Packet
decode_body conn_ack flags body = do packet ← decode_connack body; ok (Packet.conn_ack packet)
decode_body publish flags body = do packet ← decode_publish flags body; ok (Packet.publish packet)
decode_body pub_ack flags body = do packet ← decode_puback body; ok (Packet.pub_ack packet)
decode_body sub_ack flags body = do packet ← decode_suback body; ok (Packet.sub_ack packet)
decode_body unsub_ack flags body = do packet ← decode_unsuback body; ok (Packet.unsub_ack packet)
decode_body ping_resp flags body = do
  fail_if (not (is_empty body)) (malformed_packet "PINGRESP body must be empty")
  ok Packet.ping_resp
decode_body disconnect flags body = do
  packet ← decode_disconnect body
  ok (Packet.disconnect packet)
decode_body ping_req flags body = do
  fail_if (not (is_empty body)) (malformed_packet "PINGREQ body must be empty")
  ok Packet.ping_req
decode_body pub_rec flags body = err (unexpected_packet "QoS 2 not supported")
decode_body pub_rel flags body = err (unexpected_packet "QoS 2 not supported")
decode_body pub_comp flags body = err (unexpected_packet "QoS 2 not supported")
decode_body auth flags body = err (unexpected_packet "AUTH not supported")
decode_body connect flags body = err (unexpected_packet "client-to-server packet type")
decode_body subscribe flags body = err (unexpected_packet "client-to-server packet type")
decode_body unsubscribe flags body = err (unexpected_packet "client-to-server packet type")

unfoldable pub decode_packet : FixedHeader → Bytes → Result Packet
decode_packet header body = do
  validate_fixed_header header
  fail_if (not (length body == header.remaining_length))
      (malformed_packet "body length does not match header")
  decode_body header.packet_type header.flags body
