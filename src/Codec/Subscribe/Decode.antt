-- ===== src/Codec/Subscribe/Decode.antt =====
-- src/codec/subscribe.rs: `SubAckPacket::decode` and `UnsubAckPacket::decode`.
use mqtt_wasi.Prelude.{ℕ, not, Option, none, some, ◌==◌, find, is_empty}
use mqtt_wasi.Errors.{Result, ok, err, malformed_packet, invalid_reason_code, fail_if}
use mqtt_wasi.Codec.Words.{Bytes}
use mqtt_wasi.Codec.Cursor.{Read, ◌>>=◌, ◌>>◌, pure, lift, run, gets, remaining_bytes, read_u16}
use mqtt_wasi.Codec.Properties.{PropertyContext}
use mqtt_wasi.Codec.Properties.Decode.{decode_for}
use mqtt_wasi.Codec.Packets.{SubAckPacket, UnsubAckPacket}
use mqtt_wasi.Codec.Subscribe.{is_suback_reason_code, is_unsuback_reason_code}

-- `if let Some(invalid) = invalid { return Err(...) }`
abbrev pub fail_on : Option ℕ → Result (Unit {0})
fail_on none = ok tt
fail_on (some invalid) = err (invalid_reason_code invalid)

unfoldable pub read_suback : Read SubAckPacket
read_suback = do
  packet_id ← read_u16
  lift (fail_if (packet_id == 0) (malformed_packet "SUBACK packet identifier is zero"))
  _ ← decode_for PropertyContext.sub_ack
  reason_codes ← gets remaining_bytes
  lift (fail_if (is_empty reason_codes) (malformed_packet "SUBACK has no reason codes"))
  lift (fail_on (find (λ code. not (is_suback_reason_code code)) reason_codes))
  pure (record { packet_id = packet_id; reason_codes = reason_codes })

unfoldable pub decode_suback : Bytes → Result SubAckPacket
decode_suback body = run read_suback body

unfoldable pub read_unsuback : Read UnsubAckPacket
read_unsuback = do
  packet_id ← read_u16
  lift (fail_if (packet_id == 0) (malformed_packet "UNSUBACK packet identifier is zero"))
  _ ← decode_for PropertyContext.unsub_ack
  reason_codes ← gets remaining_bytes
  lift (fail_if (is_empty reason_codes) (malformed_packet "UNSUBACK has no reason codes"))
  lift (fail_on (find (λ code. not (is_unsuback_reason_code code)) reason_codes))
  pure (record { packet_id = packet_id; reason_codes = reason_codes })

unfoldable pub decode_unsuback : Bytes → Result UnsubAckPacket
decode_unsuback body = run read_unsuback body
