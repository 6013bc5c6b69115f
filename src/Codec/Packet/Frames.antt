-- ===== src/Codec/Packet/Frames.antt =====
-- Packets on the wire: a fixed header and a body, as src/codec/mod.rs and src/codec/decode.rs read
-- them.
use mqtt_wasi.Prelude.{
  ℕ, ◌%◌, ◌<◌, ◌≡◌, sym, ap, ◌∙◌, true, [], ◌++◌, append_assoc, arith, ◌==◌, ==_iff, length,
}
use mqtt_wasi.Errors.{ok}
use mqtt_wasi.Codec.Words.{Bytes, u32_mod}
use mqtt_wasi.Codec.Types.{PacketType, FixedHeader}
use mqtt_wasi.Codec.FixedHeader.{encode_fixed_header, decode_fixed_header, validate_fixed_header}
use mqtt_wasi.Codec.FixedHeader.RoundTrip.{
  header, header_bytes, IsHeader, encode_fixed_header-inv, decode_fixed_header_lem,
}
use mqtt_wasi.Codec.Packets.{Packet}
use mqtt_wasi.Codec.Packet.{decode_packet, decode_body}

-- `frame` is one whole packet on the wire, which decodes to `packet`: a fixed header that
-- `decode_fixed_header` reads whatever follows it, and a body of the length that it declares, which
-- `Packet::decode` accepts.
pub record IsFrame (frame : Bytes) (packet : Packet) : Type 0 where
  pub head : FixedHeader
  pub body : Bytes
  pub split : frame ≡ header_bytes head ++ body
  pub expressible : IsHeader head
  pub counted : head.remaining_length ≡ length body
  pub header_read :
      (rest : Bytes) → decode_fixed_header (frame ++ rest) ≡ ok (head, length (header_bytes head))
  pub body_read : decode_packet head body ≡ ok packet

decode_packet_lem :
    (t : PacketType) (flags n : ℕ) (body : Bytes)
    → validate_fixed_header (header t flags n) ≡ ok tt
    → n ≡ length body
    → decode_packet (header t flags n) body ≡ decode_body t flags body
unfolding decode_packet
decode_packet_lem t flags n body v e =
    let same : (length body == n) ≡ true = (==_iff (length body) n).1 (sym e) in rw (v, same)

-- A body behind the header that was written for it.
pub IsFrame-encode :
    (t : PacketType) (flags : ℕ) (body : Bytes) (packet : Packet) {head : Bytes}
    → length body < u32_mod
    → encode_fixed_header [] t flags (length body % u32_mod) ≡ ok head
    → decode_body t flags body ≡ ok packet
    → IsFrame (head ++ body) packet
IsFrame-encode t flags body packet {head} small written read =
    let n = length body % u32_mod in
    let h = header t flags n in
    let e : n ≡ length body = omega arith in
    let (i, same) = encode_fixed_header-inv [] h written in
    record {
      head = h;
      body = body;
      split = ap (λ b. b ++ body) same;
      expressible = i;
      counted = e;
      header_read = λ rest.
          ap decode_fixed_header (append_assoc head body rest ∙ ap (λ b. b ++ (body ++ rest)) same)
          ∙ decode_fixed_header_lem h (body ++ rest) i;
      body_read = decode_packet_lem t flags n body i.valid e ∙ read;
    }
