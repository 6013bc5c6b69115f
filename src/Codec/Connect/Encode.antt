-- ===== src/Codec/Connect/Encode.antt =====
-- src/codec/connect.rs: `ConnectPacket::encode`.
use mqtt_wasi.Prelude.{
  ℕ, ◌%◌, bit_or, not, Bool, true, false, Option, none, some, [], ◌∷◌, ◌++◌, leb, ◌==◌,
  if◌then◌else◌, length,
}
use mqtt_wasi.Errors.{Result, ok, ◌>>=◌, ◌>>◌, malformed_packet, fail_if}
use mqtt_wasi.Codec.Words.{Bytes, u32_mod}
use mqtt_wasi.Codec.Types.{PacketType}
use mqtt_wasi.Codec.FixedHeader.{encode_fixed_header}
use mqtt_wasi.Codec.Encode.{encode_string, encode_binary, encode_u16}
use mqtt_wasi.Codec.Properties.{PropertyContext}
use mqtt_wasi.Codec.Properties.Encode.{encode_for}
use mqtt_wasi.Codec.Packets.{ConnectPacket}

abbrev pub protocol_name : Bytes
protocol_name = b'M' ∷ b'Q' ∷ b'T' ∷ b'T' ∷ []

abbrev pub protocol_version_5 : ℕ
protocol_version_5 = 5

abbrev is_some : Option Bytes → Bool
is_some none = false
is_some (some a) = true

unfoldable pub connect_flags : ConnectPacket → ℕ
connect_flags packet =
    let clean = if packet.clean_start then bit_or 0 0x02 else 0 in
    let with_password = if is_some packet.password then bit_or clean 0x40 else clean in
    if is_some packet.username then bit_or with_password 0x80 else with_password

-- `if let Some(x) = x { encode(&mut body, x)?; }`
abbrev encode_some : (Bytes → Bytes → Result Bytes) → Bytes → Option Bytes → Result Bytes
encode_some encode body none = ok body
encode_some encode body (some a) = encode body a

unfoldable pub connect_body : ConnectPacket → Result Bytes
unfolding connect_flags
connect_body packet = do
  fail_if (not (packet.protocol_version == protocol_version_5))
      (malformed_packet "only MQTT v5 is supported")
  name ← encode_string [] protocol_name
  let fixed =
      encode_u16 ((name ++ packet.protocol_version ∷ []) ++ connect_flags packet ∷ [])
        packet.keep_alive
  header ←
      if leb protocol_version_5 packet.protocol_version
      then encode_for packet.properties PropertyContext.connect fixed
      else ok fixed
  body ← encode_string header packet.client_id
  body' ← encode_some encode_string body packet.username
  encode_some encode_binary body' packet.password

unfoldable pub encode_connect : ConnectPacket → Result Bytes
encode_connect packet = do
  body ← connect_body packet
  header ← encode_fixed_header [] PacketType.connect 0 (length body % u32_mod)
  ok (header ++ body)
