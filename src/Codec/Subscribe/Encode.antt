-- ===== src/Codec/Subscribe/Encode.antt =====
-- src/codec/subscribe.rs: `SubscribePacket::encode`, `UnsubscribePacket::encode` and
-- `validate_suback_codes`.
use mqtt_wasi.Prelude.{ℕ, ◌%◌, not, ◌||◌, List, [], ◌∷◌, ◌++◌, ltb, leb, ◌==◌, length, is_empty}
use mqtt_wasi.Errors.{Result, ok, ◌>>=◌, ◌>>◌, malformed_packet, ack_rejected, fail_if}
use mqtt_wasi.Codec.Words.{Bytes, u32_mod}
use mqtt_wasi.Codec.Types.{PacketType, QoS, qos_code}
use mqtt_wasi.Codec.FixedHeader.{encode_fixed_header}
use mqtt_wasi.Codec.Topic.{validate_topic_filter}
use mqtt_wasi.Codec.Encode.{encode_string, encode_u16}
use mqtt_wasi.Codec.Properties.{PropertyContext}
use mqtt_wasi.Codec.Properties.Encode.{encode_for}
use mqtt_wasi.Codec.Packets.{SubscribePacket, UnsubscribePacket}

-- the loop over the zip of the granted codes and the requested levels
unfoldable pub suback_codes_loop : List ℕ → List QoS → Result (Unit {0})
suback_codes_loop [] levels = ok tt
suback_codes_loop (granted ∷ codes) [] = ok tt
suback_codes_loop (granted ∷ codes) (requested ∷ levels) = do
  fail_if (leb 0x80 granted) (ack_rejected "SUBACK" granted)
  fail_if (granted == 2 || ltb (qos_code requested) granted)
      (malformed_packet "SUBACK granted unsupported or unrequested QoS")
  suback_codes_loop codes levels

unfoldable pub validate_suback_codes : List ℕ → List QoS → Result (Unit {0})
unfolding suback_codes_loop
validate_suback_codes reason_codes requested_qos = do
  fail_if (not (length reason_codes == length requested_qos))
      (malformed_packet "ack reason code count mismatch")
  suback_codes_loop reason_codes requested_qos

unfoldable pub encode_subscriptions : List (Bytes × QoS) → Bytes → Result Bytes
encode_subscriptions [] body = ok body
encode_subscriptions ((filter, qos) ∷ filters) body = do
  validate_topic_filter filter
  body' ← encode_string body filter
  encode_subscriptions filters (body' ++ qos_code qos ∷ [])

unfoldable pub subscribe_body : SubscribePacket → Result Bytes
subscribe_body packet = do
  fail_if (packet.packet_id == 0) (malformed_packet "SUBSCRIBE packet identifier is zero")
  fail_if (is_empty packet.filters) (malformed_packet "SUBSCRIBE has no filters")
  body ← encode_for packet.properties PropertyContext.subscribe (encode_u16 [] packet.packet_id)
  encode_subscriptions packet.filters body

unfoldable pub encode_subscribe : SubscribePacket → Result Bytes
encode_subscribe packet = do
  body ← subscribe_body packet
  header ← encode_fixed_header [] PacketType.subscribe 0x02 (length body % u32_mod)
  ok (header ++ body)

unfoldable pub encode_filters : List Bytes → Bytes → Result Bytes
encode_filters [] body = ok body
encode_filters (filter ∷ filters) body = do
  validate_topic_filter filter
  body' ← encode_string body filter
  encode_filters filters body'

unfoldable pub unsubscribe_body : UnsubscribePacket → Result Bytes
unsubscribe_body packet = do
  fail_if (packet.packet_id == 0) (malformed_packet "UNSUBSCRIBE packet identifier is zero")
  fail_if (is_empty packet.filters) (malformed_packet "UNSUBSCRIBE has no filters")
  body ← encode_for packet.properties PropertyContext.unsubscribe (encode_u16 [] packet.packet_id)
  encode_filters packet.filters body

unfoldable pub encode_unsubscribe : UnsubscribePacket → Result Bytes
encode_unsubscribe packet = do
  body ← unsubscribe_body packet
  header ← encode_fixed_header [] PacketType.unsubscribe 0x02 (length body % u32_mod)
  ok (header ++ body)
