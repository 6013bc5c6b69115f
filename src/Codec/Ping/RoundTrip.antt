-- ===== src/Codec/Ping/RoundTrip.antt =====
-- src/codec/ping.rs: `DisconnectPacket::decode` on what `DisconnectPacket::encode` wrote.
use mqtt_wasi.Prelude.{
  ◌≡◌, refl, sym, ap, true, not, inl, inr, [], ◌∷◌, ◌++◌, append-nil, arith, ◌==◌, ==_iff,
  Bool-cases, not-eq-false,
}
use mqtt_wasi.Errors.{ok, ◌>>=◌, bind-eq-ok, fail_if, fail_if-eq-ok}
use mqtt_wasi.Codec.Words.{Bytes}
use mqtt_wasi.Codec.Types.{PacketType}
use mqtt_wasi.Codec.FixedHeader.{encode_fixed_header}
use mqtt_wasi.Codec.Cursor.{cursor}
use mqtt_wasi.Codec.Cursor.Views.{Reads-u8}
use mqtt_wasi.Codec.Properties.Decode.{skip_properties}
use mqtt_wasi.Codec.Packets.{DisconnectPacket, Packet}
use mqtt_wasi.Codec.Packet.{decode_body}
use mqtt_wasi.Codec.Packet.Frames.{IsFrame, IsFrame-encode}
use mqtt_wasi.Codec.Ping.{is_disconnect_reason_code}
use mqtt_wasi.Codec.Ping.Encode.{encode_disconnect}
use mqtt_wasi.Codec.Ping.Decode.{read_disconnect, decode_disconnect}

decode-empty :
    (packet : DisconnectPacket) → packet.reason_code ≡ 0 → decode_disconnect [] ≡ ok packet
unfolding decode_disconnect read_disconnect skip_properties is_disconnect_reason_code
decode-empty packet e = ap (λ code. ok (record { reason_code = code })) (sym e)

decode-reason :
    (packet : DisconnectPacket)
    → is_disconnect_reason_code packet.reason_code ≡ true
    → decode_disconnect (packet.reason_code ∷ []) ≡ ok packet
unfolding decode_disconnect read_disconnect skip_properties
decode-reason packet known =
    let code = packet.reason_code in rw ((Reads-u8 code).at (cursor (code ∷ [])) [] refl, known)

-- A DISCONNECT that encodes to a frame decodes from it, whatever follows the frame: with an empty
-- body for reason code 0, and with the code as its body for every other one.
pub IsFrame-encode_disconnect :
    (packet : DisconnectPacket) {frame : Bytes}
    → encode_disconnect packet ≡ ok frame
    → IsFrame frame (Packet.disconnect packet)
unfolding encode_disconnect decode_body
IsFrame-encode_disconnect packet {frame} h =
    let code = packet.reason_code in
    let (_, h₁, rest₁) = bind-eq-ok (fail_if (not (is_disconnect_reason_code code)) _) _ h in
    let known = not-eq-false (is_disconnect_reason_code code) (fail_if-eq-ok _ _ h₁) in
    elim (Bool-cases (code == 0x00)) [
      | inl normal ↦
          let written = rw normal at rest₁ in
          let read =
            ap (λ r. r >>= λ p. ok (Packet.disconnect p))
              (decode-empty packet ((==_iff code 0).0 normal)) in
          rw (← append-nil frame)
            (IsFrame-encode PacketType.disconnect 0 [] _ (omega arith) written read)
      | inr reason ↦
          let rest₂ = rw reason at rest₁ in
          let (head, written, h₂) =
            bind-eq-ok (encode_fixed_header [] PacketType.disconnect 0 1) _ rest₂ in
          let e : head ++ code ∷ [] ≡ frame = cc in
          let read = ap (λ r. r >>= λ p. ok (Packet.disconnect p)) (decode-reason packet known) in
          rw (← e) (IsFrame-encode PacketType.disconnect 0 (code ∷ []) _ (omega arith) written read)
    ]
