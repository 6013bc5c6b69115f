-- ===== src/Codec/Types.antt =====
-- src/codec/types.rs: packet types, quality of service and the fixed header.
use mqtt_wasi.Prelude.{ℕ, ◌==◌, if◌then◌else◌, Bool, true, false}
use mqtt_wasi.Errors.{Result, ok, err, invalid_packet_type, invalid_qos}

pub data PacketType : Type 0 where
  connect conn_ack publish pub_ack pub_rec pub_rel pub_comp subscribe sub_ack : PacketType
  unsubscribe unsub_ack ping_req ping_resp disconnect auth : PacketType

-- `packet_type as u8`
unfoldable pub packet_type_code : PacketType → ℕ
packet_type_code connect = 1
packet_type_code conn_ack = 2
packet_type_code publish = 3
packet_type_code pub_ack = 4
packet_type_code pub_rec = 5
packet_type_code pub_rel = 6
packet_type_code pub_comp = 7
packet_type_code subscribe = 8
packet_type_code sub_ack = 9
packet_type_code unsubscribe = 10
packet_type_code unsub_ack = 11
packet_type_code ping_req = 12
packet_type_code ping_resp = 13
packet_type_code disconnect = 14
packet_type_code auth = 15

unfoldable pub packet_type_from_u8 : ℕ → Result PacketType
packet_type_from_u8 val =
    if val == 1
    then ok connect
    else if val == 2
    then ok conn_ack
    else if val == 3
    then ok publish
    else if val == 4
    then ok pub_ack
    else if val == 5
    then ok pub_rec
    else if val == 6
    then ok pub_rel
    else if val == 7
    then ok pub_comp
    else if val == 8
    then ok subscribe
    else if val == 9
    then ok sub_ack
    else if val == 10
    then ok unsubscribe
    else if val == 11
    then ok unsub_ack
    else if val == 12
    then ok ping_req
    else if val == 13
    then ok ping_resp
    else if val == 14
    then ok disconnect
    else if val == 15
    then ok auth
    else err (invalid_packet_type val)

pub data QoS : Type 0 where
  at_most_once at_least_once : QoS

-- `qos as u8`
unfoldable pub qos_code : QoS → ℕ
qos_code at_most_once = 0
qos_code at_least_once = 1

unfoldable pub qos_from_u8 : ℕ → Result QoS
qos_from_u8 val =
    if val == 0
    then ok at_most_once
    else if val == 1
    then ok at_least_once
    else err (invalid_qos val)

abbrev pub is_qos0 : QoS → Bool
is_qos0 at_most_once = true
is_qos0 at_least_once = false

pub record FixedHeader : Type 0 where
  pub packet_type : PacketType
  pub flags : ℕ
  pub remaining_length : ℕ
