-- ===== src/Codec/Publish/RoundTrip.antt =====
-- src/codec/publish.rs: `PublishPacket::decode` on what `PublishPacket::encode` wrote.
use mqtt_wasi.Prelude.{◌%◌, ◌<◌, ◌≡◌, ap, [], ◌++◌, arith, length, length-append}
use mqtt_wasi.Errors.{ok, bind-eq-ok}
use mqtt_wasi.Codec.Words.{Bytes, u32_mod}
use mqtt_wasi.Codec.Utf8.{IsText}
use mqtt_wasi.Codec.Types.{PacketType}
use mqtt_wasi.Codec.FixedHeader.{encode_fixed_header}
use mqtt_wasi.Codec.Properties.Format.{AreTexts}
use mqtt_wasi.Codec.Packets.{PublishPacket, Packet}
use mqtt_wasi.Codec.Packet.{decode_body}
use mqtt_wasi.Codec.Packet.Frames.{IsFrame, IsFrame-encode}
use mqtt_wasi.Codec.Publish.Encode.{publish_flags, publish_body, encode_publish}
use mqtt_wasi.Codec.Publish.Body.{publish_bytes, publish_body-inv, decode_publish_lem}

decode-publish_body :
    (packet : PublishPacket) {body : Bytes}
    → IsText packet.topic
    → AreTexts packet.properties.entries
    → length body < u32_mod
    → publish_body packet ≡ ok body
    → decode_body PacketType.publish (publish_flags packet) body ≡ ok (Packet.publish packet)
unfolding decode_body
decode-publish_body packet {body} text texts small h =
    let (i, e) = publish_body-inv packet small h in
    let n : length (publish_bytes packet) < u32_mod = omega (arith, ap length e) in
    rw (e, decode_publish_lem packet i text texts n)

-- A PUBLISH whose topic and properties are UTF-8, which encodes to a frame of fewer than 2 ^ 32
-- bytes, decodes from that frame, whatever follows it: topic, identifier, payload, QoS, the RETAIN
-- and DUP flags and every property come back.
pub IsFrame-encode_publish :
    (packet : PublishPacket) {frame : Bytes}
    → IsText packet.topic
    → AreTexts packet.properties.entries
    → length frame < u32_mod
    → encode_publish packet ≡ ok frame
    → IsFrame frame (Packet.publish packet)
unfolding encode_publish
IsFrame-encode_publish packet {frame} text texts small h =
    let (body, h₁, rest₁) = bind-eq-ok (publish_body packet) _ h in
    let (head, h₂, rest₂) =
      bind-eq-ok
        (encode_fixed_header [] PacketType.publish (publish_flags packet) (length body % u32_mod)) _
        rest₁ in
    let e : head ++ body ≡ frame = cc in
    let n : length body < u32_mod = omega (arith, ap length e, length-append head body) in
    rw (← e) (
      IsFrame-encode PacketType.publish (publish_flags packet) body (Packet.publish packet) n h₂
        (decode-publish_body packet text texts n h₁))
