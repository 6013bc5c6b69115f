-- ===== src/Client/Settled.antt =====
-- src/client.rs: how the waits for an acknowledgement end.
pub mod Reading
pub mod Waiting
pub mod Operations
use mqtt_wasi.Prelude.{
  ℕ, zero, suc, ◌≤◌, ◌≡◌, refl, Bool, true, false, String, Option, none, some, List, [], ◌∷◌, arith,
  ltb, leb, Bool-cases, inl, inr, length, ◌==◌, if◌then◌else◌, le→ltb,
}
use mqtt_wasi.Errors.{
  Error, Result, ok, err, ErrorKind, out_of_fuel, ack_rejected, queue_full, timeout, Result-cases,
}
use mqtt_wasi.Io.{Io, IoResult, done, failed}
use mqtt_wasi.Codec.Words.{Bytes, u16_bytes}
use mqtt_wasi.Codec.Encode.{encode_u16, encode_variable_int, encode_variable_int_loop}
use mqtt_wasi.Codec.FixedHeader.{encode_fixed_header, validate_fixed_header}
use mqtt_wasi.Codec.Publish.{is_puback_reason_code}
use mqtt_wasi.Codec.Types.{PacketType, packet_type_code, QoS, at_most_once, at_least_once}
use mqtt_wasi.Codec.Packets.{Packet, PublishPacket, DisconnectPacket}
use mqtt_wasi.Codec.Publish.Identified.{HasIdentifier, IsIdentified, decode_packet-IsIdentified}
use mqtt_wasi.Codec.Publish.Encode.{encode_puback}
use mqtt_wasi.Client.State.{MqttClient, Deadline, map_write_result}
use mqtt_wasi.Client.Action.{Act, Outcome, ◌>>=◌, lift, close, close_on, or_close, call, now}
use mqtt_wasi.Client.Sending.{
  write_bytes, send_encoded, send_puback, acknowledge, push_back, accept_publish,
  accept_publish_during_ack, is_queue_full,
}
use mqtt_wasi.Client.Triple.{
  Post, Triple, Triple-bind, Triple-lift, Triple-if, Post-if, Triple-or_close, Triple-call,
}

-- Classes of errors: none, those that leave the client open in `accept_publish`, in
-- `read_packet_until`, in `read_ack_packet` and in a wait. (`out_of_fuel` is no error of the source.)
abbrev pub Never : Error → Type 0
Never e = zero ≡ 1

abbrev pub OnQueueFull : Error → Type 0
OnQueueFull (queue_full why) = Unit {0}
OnQueueFull _ = zero ≡ 1

abbrev pub OnTimeout : Error → Type 0
OnTimeout (timeout operation) = Unit {0}
OnTimeout out_of_fuel = Unit {0}
OnTimeout _ = zero ≡ 1

abbrev pub OnFuel : Error → Type 0
OnFuel out_of_fuel = Unit {0}
OnFuel _ = zero ≡ 1

abbrev pub OnRefusal : Error → Type 0
OnRefusal (ack_rejected packet code) = Unit {0}
OnRefusal out_of_fuel = Unit {0}
OnRefusal _ = zero ≡ 1

module _ {W : Type 0} where
  -- After the error the client is closed, unless the error is one of the class.
  pub data IsSettled (Open : Error → Type 0) (e : Error) (c : MqttClient W) : Type 0 where
    is_closed : c.connected ≡ false → IsSettled Open e c
    is_open : Open e → IsSettled Open e c

  -- Every packet of up to four bytes may be sent.
  abbrev pub MaySend : MqttClient W → Type 0
  MaySend c = 4 ≤ c.max_outbound_packet_size

  pub weaken :
      {Open Open' : Error → Type 0} (e : Error) (c : MqttClient W)
      → ((e : Error) → Open e → Open' e)
      → IsSettled Open e c
      → IsSettled Open' e c
  weaken e c f (is_closed h) = is_closed h
  weaken e c f (is_open h) = is_open (f e h)

  pub weaken-Post :
      {A : Type 0} (Open Open' : Error → Type 0) (Good : A → MqttClient W → Type 0)
      (o : Outcome W A)
      → ((e : Error) → Open e → Open' e)
      → Post (IsSettled Open) Good o
      → Post (IsSettled Open') Good o
  weaken-Post Open Open' Good (ok a, c) f p = p
  weaken-Post Open Open' Good (err e, c) f p = weaken e c f p

  pub close_on-Settled :
      {A : Type 0} (Open Open' : Error → Type 0) (Good : A → MqttClient W → Type 0)
      (matches : Error → Bool) (o : Outcome W A)
      → ((e : Error) → Open e → matches e ≡ false → Open' e)
      → Post (IsSettled Open) Good o
      → Post (IsSettled Open') Good (close_on matches o)
  close_on-Settled Open Open' Good matches (ok a, c) f p = p
  close_on-Settled Open Open' Good matches (err e, c) f (is_closed h) =
      elim (Bool-cases (matches e)) [ inl m ↦ rw m (is_closed refl) | inr m ↦ rw m (is_closed h) ]
  close_on-Settled Open Open' Good matches (err e, c) f (is_open h) =
      elim (Bool-cases (matches e)) [
        | inl m ↦ rw m (is_closed refl)
        | inr m ↦ rw m (is_open (f e h m))
      ]

ack_header : encode_fixed_header [] PacketType.pub_ack 0 2 ≡ ok (0x40 ∷ 2 ∷ [])
unfolding encode_fixed_header encode_variable_int encode_variable_int_loop validate_fixed_header
    packet_type_code
ack_header = refl

puback_bytes :
    (id : ℕ)
    → 1 ≤ id
    → encode_puback (record { packet_id = id; reason_code = 0x00 }) ≡ ok (0x40 ∷ 2 ∷ u16_bytes id)
unfolding encode_puback is_puback_reason_code encode_u16
puback_bytes id nonzero = let e : (id == 0) ≡ false = ground arith in rw (e, ack_header)

module _ {W : Type 0} (io : Io W) where
  write_bytes-Settled :
      (bytes : Bytes) (operation : String)
      → Triple (IsSettled Never) MaySend (write_bytes io bytes operation) (λ u. MaySend)
  write_bytes-Settled bytes operation = Triple-bind _ _ (Triple-call _ _ (λ c w p. p) _) λ written.
      Triple-bind _ (λ u. MaySend)
        (Triple-or_close _ _ _ _ (λ u e c p. p) (λ e c p. is_closed refl))
        λ u. Triple-bind _ _ (Triple-call _ _ (λ c w p. p) _) λ flushed.
          Triple-bind _ (λ u. MaySend)
            (Triple-or_close _ _ _ _ (λ u e c p. p) (λ e c p. is_closed refl))
            λ u. Triple-bind _ _ (Triple-call _ _ (λ c w p. p) _) λ at. record { runs = λ c p. p }

  -- A packet that is short enough is sent, or the client is closed.
  pub send_encoded-Settled :
      (bytes : Bytes) (operation : String)
      → length bytes ≤ 4
      → Triple (IsSettled Never) MaySend (send_encoded io bytes operation) (λ u. MaySend)
  unfolding send_encoded
  send_encoded-Settled bytes operation short = record {
    runs = λ c p.
        Post-if (IsSettled Never) MaySend _ (ltb c.max_outbound_packet_size (length bytes)) _ _
          (λ large. absurd (ground arith)) (λ fits. (write_bytes-Settled bytes operation).runs c p);
  }

  send_puback-Settled :
      (id : ℕ) → 1 ≤ id → Triple (IsSettled Never) MaySend (send_puback io id) (λ u. MaySend)
  unfolding send_puback ◌>>=◌
  send_puback-Settled id nonzero = rw (puback_bytes id nonzero) (record {
    runs = λ c p. (send_encoded-Settled (0x40 ∷ 2 ∷ u16_bytes id) "PUBACK" (omega arith)).runs c p;
  })

  acknowledge-Settled :
      (qos : QoS) (id : Option ℕ)
      → HasIdentifier qos id
      → Triple (IsSettled Never) MaySend (acknowledge io qos id) (λ u. MaySend)
  acknowledge-Settled at_most_once id has = record { runs = λ c p. p }
  acknowledge-Settled at_least_once none has = cc
  acknowledge-Settled at_least_once (some id) has =
      let e : id ≡ has.0 = cc in rw e (send_puback-Settled has.0 has.2)

  accept_publish-Settled :
      (packet : PublishPacket)
      → HasIdentifier packet.qos packet.packet_id
      → Triple (IsSettled OnQueueFull) MaySend (accept_publish io packet) (λ u. MaySend)
  unfolding accept_publish
  accept_publish-Settled packet has = record {
    runs = λ c p.
        Post-if (IsSettled OnQueueFull) MaySend _ (leb c.max_incoming_messages (length c.incoming))
          _ _ (λ full. is_open tt)
          (λ room.
            weaken-Post Never OnQueueFull (λ u. MaySend)
              (acknowledge io packet.qos packet.packet_id (push_back packet c))
              (λ e h. absurd (omega arith))
              ((acknowledge-Settled packet.qos packet.packet_id has).runs (push_back packet c) p));
  }

  pub accept_during-Settled :
      (packet : PublishPacket)
      → HasIdentifier packet.qos packet.packet_id
      → Triple (IsSettled Never) MaySend (accept_publish_during_ack io packet) (λ u. MaySend)
  unfolding accept_publish_during_ack
  accept_during-Settled packet has = record {
    runs = λ c p.
        close_on-Settled OnQueueFull Never (λ u. MaySend) is_queue_full (accept_publish io packet c)
          queue_full-closes ((accept_publish-Settled packet has).runs c p);
  }
    where
      queue_full-closes : (e : Error) → OnQueueFull e → is_queue_full e ≡ false → Never e
      queue_full-closes (queue_full why) h m = cc
      queue_full-closes e h m = h
