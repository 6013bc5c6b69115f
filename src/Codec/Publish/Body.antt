-- ===== src/Codec/Publish/Body.antt =====
-- The body of a PUBLISH: what `PublishPacket::encode` of src/codec/publish.rs writes behind the
-- fixed header, and what `PublishPacket::decode` reads from it.
use mqtt_wasi.Prelude.{
  ℕ, ◌+◌, ◌/◌, ◌≤◌, ◌<◌, ◌≡◌, refl, sym, ap, ◌∙◌, Bool, true, false, not, bit_and, Option, none,
  some, [], ◌++◌, append_assoc, append-nil, arith, ◌==◌, length, length-append,
}
use mqtt_wasi.Errors.{ok, bind-eq-ok, fail_if-eq-ok}
use mqtt_wasi.Codec.Words.{Bytes, u16_bytes, u32_mod}
use mqtt_wasi.Codec.Utf8.{IsText}
use mqtt_wasi.Codec.Types.{QoS, at_most_once, at_least_once, qos_from_u8, qos_code}
use mqtt_wasi.Codec.Topic.{validate_topic_name}
use mqtt_wasi.Codec.Encode.{encode_string, encode_u16, variable_int_max}
use mqtt_wasi.Codec.Strings.{prefixed, IsWritable, encode_string-inv}
use mqtt_wasi.Codec.Cursor.{cursor, advance}
use mqtt_wasi.Codec.Cursor.Views.{Reads, Reads-u16, Reads-string, remaining_bytes-advance, ok_at}
use mqtt_wasi.Codec.Properties.{PropertyContext}
use mqtt_wasi.Codec.Properties.Encode.{encode_for}
use mqtt_wasi.Codec.Properties.Decode.{decode_for}
use mqtt_wasi.Codec.Properties.Format.{entries_bytes, AreTexts, AreAccepted}
use mqtt_wasi.Codec.Properties.Section.{section_bytes, encode_inner-inv, encode_inner-long_enough}
use mqtt_wasi.Codec.Properties.RoundTrip.{inner_lem}
use mqtt_wasi.Codec.Packets.{PublishPacket}
use mqtt_wasi.Codec.Publish.Encode.{check_packet_id, push_packet_id, publish_flags, publish_body}
use mqtt_wasi.Codec.Publish.Decode.{read_packet_id, read_publish, decode_publish}

abbrev pub id_bytes : Option ℕ → Bytes
id_bytes none = []
id_bytes (some id) = u16_bytes id

unfoldable pub publish_bytes : PublishPacket → Bytes
publish_bytes packet =
    prefixed packet.topic
    ++ (id_bytes packet.packet_id ++ (section_bytes packet.properties ++ packet.payload))

-- A packet that the encoder accepts.
pub record IsPublishable (packet : PublishPacket) : Type 0 where
  pub identified : check_packet_id packet.qos packet.packet_id ≡ ok tt
  pub named : validate_topic_name packet.topic ≡ ok tt
  pub writable : IsWritable packet.topic
  pub short : length (entries_bytes packet.properties.entries) ≤ variable_int_max
  pub accepted : AreAccepted (some PropertyContext.publish) [] packet.properties.entries

push_packet_id_lem : (body : Bytes) (id : Option ℕ) → push_packet_id body id ≡ body ++ id_bytes id
unfolding encode_u16
push_packet_id_lem body none = sym (append-nil body)
push_packet_id_lem body (some id) = refl

pub publish_body-inv :
    (packet : PublishPacket) {body : Bytes}
    → length body < u32_mod
    → publish_body packet ≡ ok body
    → IsPublishable packet × (body ≡ publish_bytes packet)
unfolding publish_body publish_bytes encode_for
publish_body-inv packet {body} small h =
    let topic = packet.topic in
    let id = packet.packet_id in
    let props = packet.properties in
    let (_, h₁, rest₁) = bind-eq-ok (check_packet_id packet.qos id) _ h in
    let (_, h₂, rest₂) = bind-eq-ok (validate_topic_name topic) _ rest₁ in
    let (b₁, h₃, rest₃) = bind-eq-ok (encode_string [] topic) _ rest₂ in
    let (b₂, h₄, rest₄) =
      bind-eq-ok (encode_for props PropertyContext.publish (push_packet_id b₁ id)) _ rest₃ in
    let (w, e₁) = encode_string-inv [] topic h₃ in
    let e₄ : b₂ ++ packet.payload ≡ body = cc in
    let long = encode_inner-long_enough (some PropertyContext.publish) props _ h₄ in
    let n = length-append b₂ packet.payload in
    let (short, a, e₂) =
      encode_inner-inv (some PropertyContext.publish) props _ (omega (arith, ap length e₄)) h₄ in
    let e₃ : push_packet_id b₁ id ≡ prefixed topic ++ id_bytes id =
      push_packet_id_lem b₁ id ∙ ap (λ b. b ++ id_bytes id) e₁ in
    (
      record { identified = h₁; named = h₂; writable = w; short = short; accepted = a },
      sym e₄
          ∙ ap (λ b. b ++ packet.payload) (e₂ ∙ ap (λ b. b ++ section_bytes props) e₃)
          ∙ append_assoc (prefixed topic ++ id_bytes id) (section_bytes props) packet.payload
          ∙ append_assoc (prefixed topic) (id_bytes id) _,
    )

Reads-packet_id :
    (qos : QoS) (id : Option ℕ)
    → check_packet_id qos id ≡ ok tt
    → Reads (read_packet_id qos) (id_bytes id) id
unfolding read_packet_id check_packet_id
Reads-packet_id at_most_once none h = record {
  at = λ c rest e. ok_at none c c.pos (c.pos + 0) (omega arith);
}
Reads-packet_id at_most_once (some id) h = cc
Reads-packet_id at_least_once none h = cc
Reads-packet_id at_least_once (some id) h = record {
  at = λ c rest e. let z = fail_if-eq-ok (id == 0) _ h in rw ((Reads-u16 id).at c rest e, z);
}

-- The flags tell the three fields that they were made of.
flags_qos :
    (packet : PublishPacket) (dup retain : Bool) (qos : QoS)
    → qos_from_u8
        (bit_and (publish_flags (record packet { dup = dup; qos = qos; retain = retain }) / 2) 0x03)
      ≡ ok qos
unfolding publish_flags qos_from_u8 qos_code
flags_qos packet false false at_most_once = refl
flags_qos packet false false at_least_once = refl
flags_qos packet false true at_most_once = refl
flags_qos packet false true at_least_once = refl
flags_qos packet true false at_most_once = refl
flags_qos packet true false at_least_once = refl
flags_qos packet true true at_most_once = refl
flags_qos packet true true at_least_once = refl

flags_dup :
    (packet : PublishPacket) (dup retain : Bool) (qos : QoS)
    → not (
        bit_and (publish_flags (record packet { dup = dup; qos = qos; retain = retain })) 0x08 == 0)
      ≡ dup
unfolding publish_flags qos_code
flags_dup packet false false at_most_once = refl
flags_dup packet false false at_least_once = refl
flags_dup packet false true at_most_once = refl
flags_dup packet false true at_least_once = refl
flags_dup packet true false at_most_once = refl
flags_dup packet true false at_least_once = refl
flags_dup packet true true at_most_once = refl
flags_dup packet true true at_least_once = refl

flags_retain :
    (packet : PublishPacket) (dup retain : Bool) (qos : QoS)
    → not (
        bit_and (publish_flags (record packet { dup = dup; qos = qos; retain = retain })) 0x01 == 0)
      ≡ retain
unfolding publish_flags qos_code
flags_retain packet false false at_most_once = refl
flags_retain packet false false at_least_once = refl
flags_retain packet false true at_most_once = refl
flags_retain packet false true at_least_once = refl
flags_retain packet true false at_most_once = refl
flags_retain packet true false at_least_once = refl
flags_retain packet true true at_most_once = refl
flags_retain packet true true at_least_once = refl

pub decode_publish_lem :
    (packet : PublishPacket)
    → IsPublishable packet
    → IsText packet.topic
    → AreTexts packet.properties.entries
    → length (publish_bytes packet) < u32_mod
    → decode_publish (publish_flags packet) (publish_bytes packet) ≡ ok packet
unfolding decode_publish read_publish publish_bytes decode_for
decode_publish_lem packet i text texts small =
    let topic = packet.topic in
    let id = packet.packet_id in
    let props = packet.properties in
    let c = cursor (publish_bytes packet) in
    let front = prefixed topic in
    let section = section_bytes props in
    let payload = packet.payload in
    let c₁ = advance (length front) c in
    let c₂ = advance (length (id_bytes id)) c₁ in
    let c₃ = advance (length section) c₂ in
    let h₁ = remaining_bytes-advance c front (id_bytes id ++ (section ++ payload)) refl in
    let h₂ = remaining_bytes-advance c₁ (id_bytes id) (section ++ payload) h₁ in
    let h₃ = remaining_bytes-advance c₂ section payload h₂ in
    let n₁ = length-append front (id_bytes id ++ (section ++ payload)) in
    let n₂ = length-append (id_bytes id) (section ++ payload) in
    rw (
      flags_qos packet packet.dup packet.retain packet.qos,
      flags_dup packet packet.dup packet.retain packet.qos,
      flags_retain packet packet.dup packet.retain packet.qos,
      (Reads-string topic text i.writable.no_null).at c (id_bytes id ++ (section ++ payload)) refl,
      i.named,
      (Reads-packet_id packet.qos id i.identified).at c₁ (section ++ payload) h₁,
      inner_lem (some PropertyContext.publish) props c₂ payload i.short i.accepted texts h₂
          (omega arith) (omega arith),
      h₃,
    )
