-- ===== src/Codec/Publish/Identified.antt =====
-- src/codec/publish.rs: the packet identifier of a PUBLISH that was decoded.
use mqtt_wasi.Prelude.{
  ℕ, ◌/◌, ◌≡◌, refl, false, not, Option, none, some, ◌==◌, bit_and, length, ◌≤◌, arith,
}
use mqtt_wasi.Errors.{Result, ok, fail_if, fail_if-eq-ok, bind-eq-ok, malformed_packet, ◌>>=◌}
use mqtt_wasi.Codec.Words.{Bytes}
use mqtt_wasi.Codec.Types.{QoS, at_most_once, at_least_once, FixedHeader, PacketType, qos_from_u8}
use mqtt_wasi.Codec.FixedHeader.{validate_fixed_header}
use mqtt_wasi.Codec.Cursor.{cursor, lift, read_u16, read_string, gets, remaining_bytes}
use mqtt_wasi.Codec.Cursor.Yields.{Yields, Yields-bind, Yields-after, Yields-pure, Yields-lift}
use mqtt_wasi.Codec.Topic.{validate_topic_name}
use mqtt_wasi.Codec.Properties.{PropertyContext}
use mqtt_wasi.Codec.Properties.Decode.{decode_for}
use mqtt_wasi.Codec.Packets.{Packet, PublishPacket}
use mqtt_wasi.Codec.Publish.Decode.{read_packet_id, read_publish, decode_publish}
use mqtt_wasi.Codec.Packet.{decode_body, decode_packet}

-- With QoS 1 there is an identifier, and it is not zero.
abbrev pub HasIdentifier : QoS → Option ℕ → Type 0
HasIdentifier at_most_once id = Unit {0}
HasIdentifier at_least_once id = (n : ℕ) × (id ≡ some n) × (1 ≤ n)

abbrev pub IsIdentified : Packet → Type 0
IsIdentified (Packet.publish packet) = HasIdentifier packet.qos packet.packet_id
IsIdentified _ = Unit {0}

read_packet_id-HasIdentifier : (qos : QoS) → Yields (HasIdentifier qos) (read_packet_id qos)
unfolding read_packet_id
read_packet_id-HasIdentifier at_most_once = Yields-pure _ none tt
read_packet_id-HasIdentifier at_least_once = Yields-after _ read_u16 _ λ id.
    Yields-bind _ (λ u. (id == 0) ≡ false)
      (lift (fail_if (id == 0) (malformed_packet "PUBLISH packet identifier is zero"))) _
      (Yields-lift _ _ λ u e. fail_if-eq-ok _ _ e)
      λ u nonzero. Yields-pure _ (some id) (id, refl, ground arith)

read_publish-IsIdentified :
    (flags : ℕ) → Yields (λ packet. HasIdentifier packet.qos packet.packet_id) (read_publish flags)
unfolding read_publish
read_publish-IsIdentified flags =
    Yields-after _ (lift (qos_from_u8 (bit_and (flags / 2) 0x03))) _ λ qos.
      Yields-after _ read_string _ λ topic. Yields-after _ (lift (validate_topic_name topic)) _ λ u.
        Yields-bind _ (HasIdentifier qos) (read_packet_id qos) _ (read_packet_id-HasIdentifier qos)
          λ id has. Yields-after _ (decode_for PropertyContext.publish) _ λ props.
            Yields-after _ (gets remaining_bytes) _ λ payload.
              Yields-pure _
                (record {
                  topic = topic;
                  packet_id = id;
                  payload = payload;
                  qos = qos;
                  retain = not (bit_and flags 1 == 0);
                  dup = not (bit_and flags 8 == 0);
                  properties = props;
                })
                has

decode_publish-IsIdentified :
    (flags : ℕ) (body : Bytes) (packet : PublishPacket)
    → decode_publish flags body ≡ ok packet
    → HasIdentifier packet.qos packet.packet_id
unfolding decode_publish
decode_publish-IsIdentified flags body packet h =
    let (got, h₁, h₂) = bind-eq-ok (read_publish flags (cursor body)) _ h in
    let e : packet ≡ got.0 = cc in
    rw e ((read_publish-IsIdentified flags).at (cursor body) got.0 got.1 h₁)

-- What a decoder of one packet type gives is made a packet.
made :
    {A : Type 0} (r : Result A) (make : A → Packet) (packet : Packet)
    → ((a : A) → r ≡ ok a → IsIdentified (make a))
    → (r >>= λ a. ok (make a)) ≡ ok packet
    → IsIdentified packet
made r make packet each h =
    let (a, h₁, h₂) = bind-eq-ok r _ h in let e : packet ≡ make a = cc in rw e (each a h₁)

decode_body-IsIdentified :
    (packet_type : PacketType) (flags : ℕ) (body : Bytes) (packet : Packet)
    → decode_body packet_type flags body ≡ ok packet
    → IsIdentified packet
unfolding decode_body
decode_body-IsIdentified PacketType.publish flags body packet =
    made _ Packet.publish packet (decode_publish-IsIdentified flags body)
decode_body-IsIdentified PacketType.conn_ack flags body packet =
    made _ Packet.conn_ack packet λ a e. tt
decode_body-IsIdentified PacketType.pub_ack flags body packet =
    made _ Packet.pub_ack packet λ a e. tt
decode_body-IsIdentified PacketType.sub_ack flags body packet =
    made _ Packet.sub_ack packet λ a e. tt
decode_body-IsIdentified PacketType.unsub_ack flags body packet =
    made _ Packet.unsub_ack packet λ a e. tt
decode_body-IsIdentified PacketType.disconnect flags body packet =
    made _ Packet.disconnect packet λ a e. tt
decode_body-IsIdentified PacketType.ping_resp flags body packet =
    made _ (λ u. Packet.ping_resp) packet λ a e. tt
decode_body-IsIdentified PacketType.ping_req flags body packet =
    made _ (λ u. Packet.ping_req) packet λ a e. tt
decode_body-IsIdentified other flags body packet = λ h. cc

-- A PUBLISH with QoS 1 that decodes has a packet identifier, which is not zero.
pub decode_packet-IsIdentified :
    (header : FixedHeader) (body : Bytes) (packet : Packet)
    → decode_packet header body ≡ ok packet
    → IsIdentified packet
unfolding decode_packet
decode_packet-IsIdentified header body packet h =
    let (u, h₁, rest₁) = bind-eq-ok (validate_fixed_header header) _ h in
    let (v, h₂, rest₂) =
      bind-eq-ok (fail_if (not (length body == header.remaining_length)) _) _ rest₁ in
    decode_body-IsIdentified header.packet_type header.flags body packet rest₂
