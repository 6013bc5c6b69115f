-- ===== src/Codec/Ping/Encode.antt =====
-- src/codec/ping.rs: `DisconnectPacket::encode`.
use mqtt_wasi.Prelude.{not, [], ◌∷◌, ◌++◌, ◌==◌, if◌then◌else◌}
use mqtt_wasi.Errors.{Result, ok, ◌>>=◌, ◌>>◌, invalid_reason_code, fail_if}
use mqtt_wasi.Codec.Words.{Bytes}
use mqtt_wasi.Codec.Types.{PacketType}
use mqtt_wasi.Codec.FixedHeader.{encode_fixed_header}
use mqtt_wasi.Codec.Packets.{DisconnectPacket}
use mqtt_wasi.Codec.Ping.{is_disconnect_reason_code}

unfoldable pub encode_disconnect : DisconnectPacket → Result Bytes
encode_disconnect packet = do
  fail_if (not (is_disconnect_reason_code packet.reason_code))
      (invalid_reason_code packet.reason_code)
  if packet.reason_code == 0x00 then encode_fixed_header [] PacketType.disconnect 0 0 else (do
    header ← encode_fixed_header [] PacketType.disconnect 0 1
    ok (header ++ packet.reason_code ∷ []))
