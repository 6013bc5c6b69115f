-- ===== src/Codec/Subscribe/Body.antt =====
-- src/codec/subscribe.rs: what `SubscribePacket::encode` writes, and what it accepts.
use mqtt_wasi.Prelude.{
  ◌%◌, ◌≤◌, ◌<◌, ◌≡◌, ap, ◌∙◌, false, some, List, [], ◌∷◌, ◌++◌, append_assoc, append-nil, arith,
  ◌==◌, length, length-append, is_empty, All,
}
use mqtt_wasi.Errors.{ok, bind-eq-ok, fail_if, fail_if-eq-ok}
use mqtt_wasi.Codec.Words.{Bytes, u16_bytes, u32_mod}
use mqtt_wasi.Codec.Types.{PacketType, QoS, qos_code}
use mqtt_wasi.Codec.Topic.{validate_topic_filter}
use mqtt_wasi.Codec.Encode.{encode_string, encode_u16, variable_int_max}
use mqtt_wasi.Codec.Strings.{prefixed, IsWritable, encode_string-inv}
use mqtt_wasi.Codec.FixedHeader.{encode_fixed_header}
use mqtt_wasi.Codec.FixedHeader.RoundTrip.{header, header_bytes, encode_fixed_header-inv}
use mqtt_wasi.Codec.Properties.{PropertyContext}
use mqtt_wasi.Codec.Properties.Encode.{encode_for}
use mqtt_wasi.Codec.Properties.Format.{entries_bytes, AreAccepted}
use mqtt_wasi.Codec.Properties.Section.{section_bytes, encode_inner-inv, encode_inner-long_enough}
use mqtt_wasi.Codec.Packets.{SubscribePacket}
use mqtt_wasi.Codec.Subscribe.Encode.{encode_subscriptions, subscribe_body, encode_subscribe}

-- The payload: each filter behind its length, and its level.
unfoldable pub filters_bytes : List (Bytes × QoS) → Bytes
filters_bytes [] = []
filters_bytes ((filter, qos) ∷ filters) = prefixed filter ++ (qos_code qos ∷ filters_bytes filters)

unfoldable pub subscribe_bytes : SubscribePacket → Bytes
subscribe_bytes packet =
    u16_bytes packet.packet_id ++ (section_bytes packet.properties ++ filters_bytes packet.filters)

pub record IsFilter (filter : Bytes) : Type 0 where
  pub placed : validate_topic_filter filter ≡ ok tt
  pub writable : IsWritable filter

-- A packet that the encoder accepts.
pub record IsSubscribable (packet : SubscribePacket) : Type 0 where
  pub identified : (packet.packet_id == 0) ≡ false
  pub not_empty : is_empty packet.filters ≡ false
  pub filters : All (λ subscription. IsFilter subscription.0) packet.filters
  pub short : length (entries_bytes packet.properties.entries) ≤ variable_int_max
  pub accepted : AreAccepted (some PropertyContext.subscribe) [] packet.properties.entries

encode_subscriptions-inv :
    (filters : List (Bytes × QoS)) (body : Bytes) {out : Bytes}
    → encode_subscriptions filters body ≡ ok out
    → All (λ subscription. IsFilter subscription.0) filters × (out ≡ body ++ filters_bytes filters)
unfolding encode_subscriptions filters_bytes
encode_subscriptions-inv [] body {out} h = (tt, cc (h, append-nil body))
encode_subscriptions-inv ((filter, qos) ∷ filters) body {out} h =
    let (_, h₁, rest₁) = bind-eq-ok (validate_topic_filter filter) _ h in
    let (body', h₂, rest₂) = bind-eq-ok (encode_string body filter) _ rest₁ in
    let (w, e₁) = encode_string-inv body filter h₂ in
    let (are, e₂) = encode_subscriptions-inv filters (body' ++ qos_code qos ∷ []) rest₂ in
    let rest = filters_bytes filters in
    (
      (record { placed = h₁; writable = w }, are),
      e₂
          ∙ append_assoc body' (qos_code qos ∷ []) rest
          ∙ ap (λ b. b ++ qos_code qos ∷ rest) e₁
          ∙ append_assoc body (prefixed filter) (qos_code qos ∷ rest),
    )

subscribe_body-inv :
    (packet : SubscribePacket) {body : Bytes}
    → length body < u32_mod
    → subscribe_body packet ≡ ok body
    → IsSubscribable packet × (body ≡ subscribe_bytes packet)
unfolding subscribe_body subscribe_bytes encode_for encode_u16
subscribe_body-inv packet {body} small h =
    let props = packet.properties in
    let id = u16_bytes packet.packet_id in
    let (_, h₁, rest₁) = bind-eq-ok (fail_if (packet.packet_id == 0) _) _ h in
    let (_, h₂, rest₂) = bind-eq-ok (fail_if (is_empty packet.filters) _) _ rest₁ in
    let (b, h₃, rest₃) = bind-eq-ok (encode_for props PropertyContext.subscribe id) _ rest₂ in
    let (are, e₁) = encode_subscriptions-inv packet.filters b rest₃ in
    let long = encode_inner-long_enough (some PropertyContext.subscribe) props id h₃ in
    let n = ap length e₁ ∙ length-append b (filters_bytes packet.filters) in
    let (short, a, e₂) =
      encode_inner-inv (some PropertyContext.subscribe) props id (omega arith) h₃ in
    (
      record {
        identified = fail_if-eq-ok _ _ h₁;
        not_empty = fail_if-eq-ok _ _ h₂;
        filters = are;
        short = short;
        accepted = a;
      },
      e₁
          ∙ ap (λ x. x ++ filters_bytes packet.filters) e₂
          ∙ append_assoc id (section_bytes props) (filters_bytes packet.filters),
    )

-- A SUBSCRIBE that encodes to a frame of fewer than 2 ^ 32 bytes has an identifier, at least one
-- filter, only valid filters and accepted properties, and the frame is its header, with the length
-- of the body, and the body: identifier, properties, and each filter with its level.
pub encode_subscribe-inv :
    (packet : SubscribePacket) {frame : Bytes}
    → length frame < u32_mod
    → encode_subscribe packet ≡ ok frame
    → IsSubscribable packet
      × (frame
          ≡ header_bytes (header PacketType.subscribe 0x02 (length (subscribe_bytes packet)))
            ++ subscribe_bytes packet)
unfolding encode_subscribe
encode_subscribe-inv packet {frame} small h =
    let (body, h₁, rest₁) = bind-eq-ok (subscribe_body packet) _ h in
    let n = length body % u32_mod in
    let (head, h₂, rest₂) =
      bind-eq-ok (encode_fixed_header [] PacketType.subscribe 0x02 n) _ rest₁ in
    let e : frame ≡ head ++ body = cc in
    let len = ap length e ∙ length-append head body in
    let (accepted, same) = subscribe_body-inv packet (omega arith) h₁ in
    let (_, written) = encode_fixed_header-inv [] (header PacketType.subscribe 0x02 n) h₂ in
    let count : n ≡ length (subscribe_bytes packet) = omega (arith, ap length same) in
    (
      accepted,
      e
          ∙ ap (λ x. x ++ body)
              (written ∙ ap (λ k. header_bytes (header PacketType.subscribe 0x02 k)) count)
          ∙ ap
              (λ x.
                header_bytes (header PacketType.subscribe 0x02 (length (subscribe_bytes packet)))
                ++ x)
              same,
    )
