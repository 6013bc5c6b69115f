-- ===== src/Codec/Packet/Safe.antt =====
-- src/codec/mod.rs: `Packet::decode` on any header and any body.
use mqtt_wasi.Prelude.{
  ℕ, ◌≢◌, Bool, not, Option, none, some, arith, ltb, ◌==◌, bit_and, length, find, is_empty, String,
  true, false, ◌/◌,
}
use mqtt_wasi.Errors.{
  Error, Result, ok, err, ◌>>=◌, malformed_packet, out_of_fuel, Ends, Ends-bind, Ends-ok,
  Ends-fail_if, fail_if, invalid_reason_code,
}
use mqtt_wasi.Codec.Words.{Bytes}
use mqtt_wasi.Codec.Types.{PacketType, FixedHeader, QoS, at_most_once, at_least_once, qos_from_u8}
use mqtt_wasi.Codec.FixedHeader.{validate_fixed_header}
use mqtt_wasi.Codec.FixedHeader.Safe.{header-Ends}
use mqtt_wasi.Codec.Topic.{validate_topic_name}
use mqtt_wasi.Codec.Cursor.{
  Cursor, Read, cursor, run, remaining, remaining_bytes, gets, lift, read_u8, read_u16, read_string,
}
use mqtt_wasi.Codec.Cursor.Safe.{
  Fine, Safe, Safe-bind, Safe-pure, Safe-gets, Safe-lift, Safe-if, Safe-check, Safe-u8, Safe-u16,
  Safe-string, Safe-weaken,
}
use mqtt_wasi.Codec.Properties.{PropertyContext}
use mqtt_wasi.Codec.Properties.Decode.{decode_for, check_finished}
use mqtt_wasi.Codec.Properties.Safe.{Safe-decode_for, Safe-skip_properties}
use mqtt_wasi.Codec.Packets.{Packet}
use mqtt_wasi.Codec.Packet.{decode_body, decode_packet}
use mqtt_wasi.Codec.Connect.{is_connack_reason_code}
use mqtt_wasi.Codec.Connect.Decode.{read_connack, decode_connack}
use mqtt_wasi.Codec.Publish.{is_puback_reason_code}
use mqtt_wasi.Codec.Publish.Decode.{
  read_packet_id, read_publish, decode_publish, read_puback, decode_puback,
}
use mqtt_wasi.Codec.Subscribe.{is_suback_reason_code, is_unsuback_reason_code}
use mqtt_wasi.Codec.Subscribe.Decode.{
  fail_on, read_suback, decode_suback, read_unsuback, decode_unsuback,
}
use mqtt_wasi.Codec.Ping.{is_disconnect_reason_code}
use mqtt_wasi.Codec.Ping.Decode.{read_disconnect, decode_disconnect}

Ends-fail {ℓ} : {A : Type ℓ} (e : Error) → e ≢ out_of_fuel → Ends {A = A} (err e)
Ends-fail e n = record { ends = λ p. n (cc p) }

Ends-check : (b : Bool) (e : Error) → e ≢ out_of_fuel → Ends (fail_if b e)
Ends-check true e n = Ends-fail e n
Ends-check false e n = Ends-ok tt

run-Ends : {A : Type 0} (read : Read A) (bytes : Bytes) → Safe 0 read → Ends (run read bytes)
run-Ends {A = A} read bytes s = go (read (cursor bytes)) (s.at (cursor bytes) (omega arith))
  where
    go : (r : Result (A × Cursor)) → Fine 0 (cursor bytes) r → Ends (r >>= λ (a, c). ok a)
    go (ok (a, c)) m = Ends-ok a
    go (err e) n = Ends-fail e n

qos-Ends : (val : ℕ) → Ends (qos_from_u8 val)
unfolding qos_from_u8
qos-Ends val = record { ends = λ e. ground arith }

name-Ends : (topic : Bytes) → Ends (validate_topic_name topic)
unfolding validate_topic_name
name-Ends topic = record { ends = λ e. ground arith }

fail_on-Ends : (o : Option ℕ) → Ends (fail_on o)
fail_on-Ends none = Ends-ok tt
fail_on-Ends (some code) = Ends-fail _ λ e. cc

Safe-code : (b : Bool) (code : ℕ) → Safe 0 (lift (fail_if b (invalid_reason_code code)))
Safe-code b code = Safe-lift _ (Ends-check b _ λ e. cc)

Safe-finished : (why : String) → Safe 0 (check_finished (malformed_packet why))
Safe-finished why =
    Safe-bind 0 0 (gets remaining) _ (Safe-gets remaining) λ left. Safe-check (not (left == 0)) why

Safe-for : (context : PropertyContext) → Safe 0 (decode_for context)
Safe-for context = Safe-weaken 1 0 _ (omega arith) (Safe-decode_for context)

Safe-packet_id : (qos : QoS) → Safe 0 (read_packet_id qos)
unfolding read_packet_id
Safe-packet_id at_most_once = Safe-pure none
Safe-packet_id at_least_once = Safe-weaken 2 0 _ (omega arith) (
    Safe-bind 2 0 read_u16 _ Safe-u16
      λ id. Safe-bind 0 0 _ _ (Safe-check (id == 0) _) λ _. Safe-pure _)

Safe-publish : (flags : ℕ) → Safe 2 (read_publish flags)
unfolding read_publish
Safe-publish flags = Safe-bind 0 2 _ _ (Safe-lift _ (qos-Ends (bit_and (flags / 2) 0x03))) λ qos.
    Safe-bind 2 0 read_string _ Safe-string λ topic.
      Safe-bind 0 0 _ _ (Safe-lift _ (name-Ends topic)) λ _.
        Safe-bind 0 0 _ _ (Safe-packet_id qos) λ id.
          Safe-bind 0 0 _ _ (Safe-for PropertyContext.publish) λ props.
            Safe-bind 0 0 _ _ (Safe-gets remaining_bytes) λ payload. Safe-pure (record {
              topic = topic;
              packet_id = id;
              payload = payload;
              qos = qos;
              retain = not (bit_and flags 0x01 == 0);
              dup = not (bit_and flags 0x08 == 0);
              properties = props;
            })

Safe-puback : Safe 2 read_puback
unfolding read_puback
Safe-puback = Safe-bind 2 0 read_u16 _ Safe-u16 λ id.
    Safe-bind 0 0 _ _ (Safe-check (id == 0) _) λ _. Safe-bind 0 0 _ _ (Safe-gets remaining) λ left.
      Safe-bind 0 0 _ _
        (Safe-if 0 (ltb 0 left) _ _ (Safe-weaken 1 0 _ (omega arith) Safe-u8) (Safe-pure 0x00))
        λ code. Safe-bind 0 0 _ _ (Safe-code (not (is_puback_reason_code code)) code) λ _.
          Safe-bind 0 0 _ _ (Safe-skip_properties PropertyContext.pub_ack) λ _.
            Safe-bind 0 0 _ _ (Safe-finished "trailing PUBACK bytes")
              λ _. Safe-pure (record { packet_id = id; reason_code = code })

Safe-disconnect : (body : Bytes) → Safe 0 (read_disconnect body)
unfolding read_disconnect
Safe-disconnect body =
    Safe-bind 0 0 _ _
      (Safe-if 0 (is_empty body) _ _ (Safe-pure _) (Safe-weaken 1 0 _ (omega arith) Safe-u8))
      λ code. Safe-bind 0 0 _ _ (Safe-code (not (is_disconnect_reason_code code)) code) λ _.
        Safe-bind 0 0 _ _ (Safe-skip_properties PropertyContext.disconnect)
          λ _. Safe-bind 0 0 _ _ (Safe-finished _) λ _. Safe-pure _

Safe-connack : Safe 2 read_connack
unfolding read_connack
Safe-connack = Safe-bind 1 1 read_u8 _ Safe-u8 λ flags.
    Safe-bind 0 1 _ _ (Safe-check (not (bit_and flags 0xFE == 0)) _) λ _.
      Safe-bind 1 0 read_u8 _ Safe-u8 λ code.
        Safe-bind 0 0 _ _ (Safe-code (not (is_connack_reason_code code)) code) λ _.
          Safe-bind 0 0 _ _ (Safe-check _ _) λ _.
            Safe-bind 0 0 _ _ (Safe-for PropertyContext.conn_ack)
              λ props. Safe-bind 0 0 _ _ (Safe-finished _) λ _. Safe-pure _

Safe-suback : Safe 2 read_suback
unfolding read_suback
Safe-suback = Safe-bind 2 0 read_u16 _ Safe-u16 λ id.
    Safe-bind 0 0 _ _ (Safe-check (id == 0) _) λ _.
      Safe-bind 0 0 _ _ (Safe-for PropertyContext.sub_ack) λ props.
        Safe-bind 0 0 _ _ (Safe-gets remaining_bytes) λ codes.
          Safe-bind 0 0 _ _ (Safe-check (is_empty codes) "SUBACK has no reason codes") λ _.
            Safe-bind 0 0 _ _
              (Safe-lift _ (fail_on-Ends (find (λ code. not (is_suback_reason_code code)) codes)))
              λ _. Safe-pure (record { packet_id = id; reason_codes = codes })

Safe-unsuback : Safe 2 read_unsuback
unfolding read_unsuback
Safe-unsuback = Safe-bind 2 0 read_u16 _ Safe-u16 λ id.
    Safe-bind 0 0 _ _ (Safe-check (id == 0) _) λ _.
      Safe-bind 0 0 _ _ (Safe-for PropertyContext.unsub_ack) λ props.
        Safe-bind 0 0 _ _ (Safe-gets remaining_bytes) λ codes.
          Safe-bind 0 0 _ _ (Safe-check (is_empty codes) "UNSUBACK has no reason codes") λ _.
            Safe-bind 0 0 _ _
              (Safe-lift _ (fail_on-Ends (find (λ code. not (is_unsuback_reason_code code)) codes)))
              λ _. Safe-pure (record { packet_id = id; reason_codes = codes })

Safe-any : {A : Type 0} (k : ℕ) (read : Read A) → Safe k read → Safe 0 read
Safe-any k read s = Safe-weaken k 0 read (omega arith) s

Ends-map : {A B : Type 0} (r : Result A) (f : A → B) → Ends r → Ends (r >>= λ a. ok (f a))
Ends-map r f h = Ends-bind r _ h λ a. Ends-ok (f a)

body-Ends : (t : PacketType) (flags : ℕ) (body : Bytes) → Ends (decode_body t flags body)
unfolding decode_body decode_connack decode_publish decode_puback decode_suback decode_unsuback
    decode_disconnect
body-Ends PacketType.conn_ack flags body =
    Ends-map _ Packet.conn_ack (run-Ends _ body (Safe-any 2 _ Safe-connack))
body-Ends PacketType.publish flags body =
    Ends-map _ Packet.publish (run-Ends _ body (Safe-any 2 _ (Safe-publish flags)))
body-Ends PacketType.pub_ack flags body =
    Ends-map _ Packet.pub_ack (run-Ends _ body (Safe-any 2 _ Safe-puback))
body-Ends PacketType.sub_ack flags body =
    Ends-map _ Packet.sub_ack (run-Ends _ body (Safe-any 2 _ Safe-suback))
body-Ends PacketType.unsub_ack flags body =
    Ends-map _ Packet.unsub_ack (run-Ends _ body (Safe-any 2 _ Safe-unsuback))
body-Ends PacketType.disconnect flags body =
    Ends-map _ Packet.disconnect (run-Ends _ body (Safe-disconnect body))
body-Ends PacketType.ping_resp flags body =
    Ends-map _ (λ _. Packet.ping_resp) (Ends-fail_if (not (is_empty body)) _)
body-Ends PacketType.ping_req flags body =
    Ends-map _ (λ _. Packet.ping_req) (Ends-fail_if (not (is_empty body)) _)
body-Ends _ flags body = Ends-fail _ λ e. cc

-- On every header and every body `Packet::decode` gives a packet or one of the errors of the
-- source: no loop of a decoder runs out of its fuel.
pub decode_packet-Ends : (header : FixedHeader) (body : Bytes) → Ends (decode_packet header body)
unfolding decode_packet
decode_packet-Ends header body =
    Ends-bind (validate_fixed_header header) _ (header-Ends header) λ _.
      Ends-bind _ _ (Ends-fail_if (not (length body == header.remaining_length)) _)
        λ _. body-Ends header.packet_type header.flags body
