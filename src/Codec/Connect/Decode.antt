-- ===== src/Codec/Connect/Decode.antt =====
-- src/codec/connect.rs: `ConnAckPacket::decode`.
use mqtt_wasi.Prelude.{bit_and, not, ◌&&◌, ◌==◌}
use mqtt_wasi.Errors.{Result, malformed_packet, invalid_reason_code, fail_if}
use mqtt_wasi.Codec.Words.{Bytes}
use mqtt_wasi.Codec.Cursor.{Read, ◌>>=◌, ◌>>◌, pure, lift, run, read_u8}
use mqtt_wasi.Codec.Properties.{PropertyContext}
use mqtt_wasi.Codec.Properties.Decode.{decode_for, check_finished}
use mqtt_wasi.Codec.Packets.{ConnAckPacket}
use mqtt_wasi.Codec.Connect.{is_connack_reason_code}

unfoldable pub read_connack : Read ConnAckPacket
read_connack = do
  ack_flags ← read_u8
  lift (
      fail_if (not (bit_and ack_flags 0xFE == 0))
        (malformed_packet "CONNACK has reserved acknowledge flags"))
  let session_present = not (bit_and ack_flags 0x01 == 0)
  reason_code ← read_u8
  lift (fail_if (not (is_connack_reason_code reason_code)) (invalid_reason_code reason_code))
  lift (
      fail_if (session_present && not (reason_code == 0x00))
        (malformed_packet "refused CONNACK has session present"))
  properties ← decode_for PropertyContext.conn_ack
  check_finished (malformed_packet "trailing CONNACK bytes")
  pure (record {
    session_present = session_present;
    reason_code = reason_code;
    properties = properties;
  })

unfoldable pub decode_connack : Bytes → Result ConnAckPacket
decode_connack body = run read_connack body
