-- ===== src/Codec/Ping/Decode.antt =====
-- src/codec/ping.rs: `DisconnectPacket::decode`.
use mqtt_wasi.Prelude.{not, is_empty, if◌then◌else◌}
use mqtt_wasi.Errors.{Result, malformed_packet, invalid_reason_code, fail_if}
use mqtt_wasi.Codec.Words.{Bytes}
use mqtt_wasi.Codec.Cursor.{Read, ◌>>=◌, ◌>>◌, pure, lift, run, read_u8}
use mqtt_wasi.Codec.Properties.{PropertyContext}
use mqtt_wasi.Codec.Properties.Decode.{skip_properties, check_finished}
use mqtt_wasi.Codec.Packets.{DisconnectPacket}
use mqtt_wasi.Codec.Ping.{is_disconnect_reason_code}

unfoldable pub read_disconnect : Bytes → Read DisconnectPacket
read_disconnect body = do
  reason_code ← if is_empty body then pure 0x00 else read_u8
  lift (fail_if (not (is_disconnect_reason_code reason_code)) (invalid_reason_code reason_code))
  skip_properties PropertyContext.disconnect
  check_finished (malformed_packet "trailing DISCONNECT bytes")
  pure (record { reason_code = reason_code })

unfoldable pub decode_disconnect : Bytes → Result DisconnectPacket
decode_disconnect body = run (read_disconnect body) body
