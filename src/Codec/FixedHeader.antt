-- ===== src/Codec/FixedHeader.antt =====
-- The fixed header: `validate_fixed_header` and `decode_fixed_header` of src/codec/decode.rs, and
-- `encode_fixed_header` of src/codec/encode.rs.
pub mod RoundTrip
pub mod Safe
use mqtt_wasi.Prelude.{
  ℕ, ◌+◌, ◌*◌, ◌/◌, bit_and, bit_or, Bool, not, ◌&&◌, [], ◌∷◌, ◌++◌, ltb, ◌==◌, if◌then◌else◌,
}
use mqtt_wasi.Errors.{Result, ok, err, ◌>>=◌, ◌>>◌, malformed_packet, invalid_qos, fail_if}
use mqtt_wasi.Codec.Words.{Bytes}
use mqtt_wasi.Codec.Types.{
  PacketType, connect, conn_ack, publish, pub_ack, pub_rec, pub_rel, pub_comp, subscribe, sub_ack,
  unsubscribe, unsub_ack, ping_req, ping_resp, disconnect, auth, packet_type_code,
  packet_type_from_u8, FixedHeader,
}
use mqtt_wasi.Codec.Cursor.{cursor, read_u8, read_variable_int}
use mqtt_wasi.Codec.Encode.{encode_variable_int}

-- the arm of PUBLISH
unfoldable validate_publish_flags : ℕ → Result (Unit {0})
validate_publish_flags flags = do
  let qos = bit_and (flags / 2) 0x03
  fail_if (qos == 0x03) (invalid_qos qos)
  fail_if (qos == 0 && not (bit_and flags 0x08 == 0))
      (malformed_packet "QoS 0 PUBLISH has DUP flag")

abbrev expect_flags : ℕ → ℕ → Result (Unit {0})
expect_flags flags expected =
    fail_if (not (flags == expected)) (malformed_packet "invalid fixed-header flags")

unfoldable validate_flags : PacketType → ℕ → Result (Unit {0})
unfolding validate_publish_flags
validate_flags publish flags = validate_publish_flags flags
validate_flags pub_rel flags = expect_flags flags 0x02
validate_flags subscribe flags = expect_flags flags 0x02
validate_flags unsubscribe flags = expect_flags flags 0x02
validate_flags _ flags = expect_flags flags 0x00

unfoldable pub validate_fixed_header : FixedHeader → Result (Unit {0})
unfolding validate_flags
validate_fixed_header header = validate_flags header.packet_type header.flags

unfoldable pub encode_fixed_header : Bytes → PacketType → ℕ → ℕ → Result Bytes
encode_fixed_header buf packet_type flags remaining_length = do
  fail_if (ltb 0x0F flags) (malformed_packet "fixed-header flags exceed four bits")
  validate_fixed_header
      (record { packet_type = packet_type; flags = flags; remaining_length = remaining_length })
  let type_byte = bit_or (packet_type_code packet_type * 16) flags
  encode_variable_int (buf ++ type_byte ∷ []) remaining_length

-- The header, and the number of bytes that it takes.
unfoldable pub decode_fixed_header : Bytes → Result (FixedHeader × ℕ)
decode_fixed_header bytes = do
  (first_byte, cur) ← read_u8 (cursor bytes)
  packet_type ← packet_type_from_u8 (first_byte / 16)
  let flags = bit_and first_byte 0x0F
  (remaining_length, cur') ← read_variable_int cur
  let header : FixedHeader = record {
    packet_type = packet_type;
    flags = flags;
    remaining_length = remaining_length;
  }
  validate_fixed_header header
  ok (header, cur'.pos)
