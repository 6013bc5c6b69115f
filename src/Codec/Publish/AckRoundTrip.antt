-- ===== src/Codec/Publish/AckRoundTrip.antt =====
-- src/codec/publish.rs: `PubAckPacket::decode` on what `PubAckPacket::encode` wrote.
use mqtt_wasi.Prelude.{
  ◌≡◌, refl, sym, ap, true, false, not, inl, inr, [], ◌∷◌, ◌++◌, append_assoc, arith, ◌==◌, ==_iff,
  Bool-cases, not-eq-false,
}
use mqtt_wasi.Errors.{ok, ◌>>=◌, bind-eq-ok, fail_if, fail_if-eq-ok}
use mqtt_wasi.Codec.Words.{Bytes, u16_bytes}
use mqtt_wasi.Codec.Types.{PacketType}
use mqtt_wasi.Codec.Encode.{encode_u16}
use mqtt_wasi.Codec.FixedHeader.{encode_fixed_header}
use mqtt_wasi.Codec.Cursor.{cursor, advance}
use mqtt_wasi.Codec.Cursor.Views.{Reads-u16, Reads-u8, remaining_bytes-advance}
use mqtt_wasi.Codec.Properties.Decode.{skip_properties}
use mqtt_wasi.Codec.Packets.{PubAckPacket, Packet}
use mqtt_wasi.Codec.Packet.{decode_body}
use mqtt_wasi.Codec.Packet.Frames.{IsFrame, IsFrame-encode}
use mqtt_wasi.Codec.Publish.{is_puback_reason_code}
use mqtt_wasi.Codec.Publish.Encode.{encode_puback}
use mqtt_wasi.Codec.Publish.Decode.{read_puback, decode_puback}

-- A packet that the encoder accepts.
record IsAck (packet : PubAckPacket) : Type 0 where
  identified : (packet.packet_id == 0) ≡ false
  known : is_puback_reason_code packet.reason_code ≡ true

decode-short :
    (packet : PubAckPacket)
    → IsAck packet
    → packet.reason_code ≡ 0
    → decode_puback (u16_bytes packet.packet_id) ≡ ok packet
unfolding decode_puback read_puback skip_properties is_puback_reason_code
decode-short packet i e =
    let id = packet.packet_id in
    rw ((Reads-u16 id).at (cursor (u16_bytes id)) [] refl, i.identified)
      (ap (λ code. ok (record packet { reason_code = code })) (sym e))

decode-long :
    (packet : PubAckPacket)
    → IsAck packet
    → decode_puback (u16_bytes packet.packet_id ++ packet.reason_code ∷ []) ≡ ok packet
unfolding decode_puback read_puback skip_properties
decode-long packet i =
    let id = packet.packet_id in
    let code = packet.reason_code in
    let c = cursor (u16_bytes id ++ code ∷ []) in
    let h = remaining_bytes-advance c (u16_bytes id) (code ∷ []) refl in
    rw (
      (Reads-u16 id).at c (code ∷ []) refl,
      i.identified,
      (Reads-u8 code).at (advance 2 c) [] h,
      i.known,
    )

-- A PUBACK that encodes to a frame decodes from it, whatever follows the frame, with the short form
-- without a reason code for success and with the long one for every other reason.
pub IsFrame-encode_puback :
    (packet : PubAckPacket) {frame : Bytes}
    → encode_puback packet ≡ ok frame
    → IsFrame frame (Packet.pub_ack packet)
unfolding encode_puback decode_body encode_u16
IsFrame-encode_puback packet {frame} h =
    let id = packet.packet_id in
    let code = packet.reason_code in
    let (_, h₁, rest₁) = bind-eq-ok (fail_if (id == 0) _) _ h in
    let (_, h₂, rest₂) = bind-eq-ok (fail_if (not (is_puback_reason_code code)) _) _ rest₁ in
    let known : is_puback_reason_code code ≡ true = not-eq-false _ (fail_if-eq-ok _ _ h₂) in
    let i : IsAck packet = record { identified = fail_if-eq-ok _ _ h₁; known = known } in
    elim (Bool-cases (code == 0x00)) [
      | inl success ↦
          let rest₃ = rw success at rest₂ in
          let (head, h₃, h₄) = bind-eq-ok (encode_fixed_header [] PacketType.pub_ack 0 2) _ rest₃ in
          let e : head ++ u16_bytes id ≡ frame = cc in
          let read =
            ap (λ r. r >>= λ p. ok (Packet.pub_ack p))
              (decode-short packet i ((==_iff code 0).0 success)) in
          rw (← e) (IsFrame-encode PacketType.pub_ack 0 (u16_bytes id) _ (omega arith) h₃ read)
      | inr failure ↦
          let rest₃ = rw failure at rest₂ in
          let (head, h₃, h₄) = bind-eq-ok (encode_fixed_header [] PacketType.pub_ack 0 3) _ rest₃ in
          let body = u16_bytes id ++ code ∷ [] in
          let e : head ++ body ≡ frame = cc (h₄, append_assoc head (u16_bytes id) (code ∷ [])) in
          let read = ap (λ r. r >>= λ p. ok (Packet.pub_ack p)) (decode-long packet i) in
          rw (← e) (IsFrame-encode PacketType.pub_ack 0 body _ (omega arith) h₃ read)
    ]
