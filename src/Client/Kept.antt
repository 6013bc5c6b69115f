-- ===== src/Client/Kept.antt =====
-- src/client.rs: every method keeps the client sound, leaves its limits, and does not open it again.
pub mod Reading
pub mod Waiting
pub mod Operations
use mqtt_wasi.Prelude.{
  ℕ, zero, suc, ◌+◌, ◌≤◌, ◌<◌, ◌≡◌, refl, sym, ap, Bool, true, false, String, Option, none, some,
  List, [], ◌∷◌, ◌++◌, arith, ltb, leb, ltb→le, Bool-cases, inl, inr, length, length-append,
  if◌then◌else◌,
}
use mqtt_wasi.Errors.{Error, Result, ok, err, ErrorKind}
use mqtt_wasi.Io.{Io, IoResult, done, failed}
use mqtt_wasi.Codec.Words.{Bytes}
use mqtt_wasi.Codec.Types.{QoS, at_most_once, at_least_once}
use mqtt_wasi.Codec.Packets.{Packet, PublishPacket, DisconnectPacket}
use mqtt_wasi.Client.State.{MqttClient, Deadline, map_write_result}
use mqtt_wasi.Client.Action.{Act, Outcome, and_then, ◌>>=◌, lift, close, or_close, call, now}
use mqtt_wasi.Client.Sending.{
  id_after, next_packet_id, ensure_connected, pop_from, pop_front, push_back, write_bytes,
  send_encoded, send_puback, acknowledge, accept_publish, accept_publish_during_ack, is_queue_full,
}
use mqtt_wasi.Client.Evolves.{
  IsSound, Evolves, Evolves-refl, Evolves-trans, Evolves-close, Evolves-times, Evolves-close_on,
  Keeps, Keeps-lift, Keeps-or_close, Keeps-call, Keeps-through, Keeps-bind, Evolves-if,
}

pub id_after-bounds : (id : ℕ) → (1 ≤ id_after id) × (id_after id < 65536)
id_after-bounds id = ground arith

module _ {W : Type 0} where
  pub Keeps-ensure_connected : Keeps {W = W} ensure_connected
  unfolding ensure_connected
  Keeps-ensure_connected = record {
    keeps = λ c. Evolves-if c c.connected _ _ (λ e. Evolves-refl c) (λ e. Evolves-refl c);
  }

  pub Keeps-next_packet_id : Keeps {W = W} next_packet_id
  unfolding next_packet_id
  Keeps-next_packet_id = record {
    keeps = λ c. record {
      sound = λ s. let b = id_after-bounds c.next_packet_id in (s.0, s.1, b.0, b.1);
      closed = λ e. e;
      same_queue_max = refl;
      same_outbound_max = refl;
    };
  }

  -- A queue that is no longer than before.
  set_queue-Evolves :
      (queue : List PublishPacket) (c : MqttClient W)
      → (length c.incoming ≤ c.max_incoming_messages → length queue ≤ c.max_incoming_messages)
      → Evolves c (record c { incoming = queue })
  set_queue-Evolves queue c fits = record {
    sound = λ s. (s.0, fits s.1, s.2, s.3);
    closed = λ e. e;
    same_queue_max = refl;
    same_outbound_max = refl;
  }

  pop_from-Evolves :
      (queue : List PublishPacket) (c : MqttClient W)
      → c.incoming ≡ queue
      → Evolves c (pop_from queue c).1
  pop_from-Evolves [] c e = Evolves-refl c
  pop_from-Evolves (packet ∷ rest) c e = set_queue-Evolves rest c λ h. omega (arith, ap length e)

  pub Keeps-pop_front : Keeps {W = W} pop_front
  unfolding pop_front
  Keeps-pop_front = record { keeps = λ c. pop_from-Evolves c.incoming c refl }

  -- A message that fits in the queue.
  push_back-Evolves :
      (packet : PublishPacket) (c : MqttClient W)
      → leb c.max_incoming_messages (length c.incoming) ≡ false
      → Evolves c (push_back packet c)
  push_back-Evolves packet c room =
      set_queue-Evolves _ c λ h. ground (arith, length-append c.incoming (packet ∷ []))

module _ {W : Type 0} (io : Io W) where
  pub Keeps-now : Keeps (now io)
  Keeps-now = Keeps-call io.now

  Keeps-write_bytes : (bytes : Bytes) (operation : String) → Keeps (write_bytes io bytes operation)
  Keeps-write_bytes bytes operation = Keeps-bind (Keeps-call _) λ written.
      Keeps-bind (Keeps-or_close _) λ u. Keeps-bind (Keeps-call _) λ flushed.
        Keeps-bind (Keeps-or_close _) λ u.
          Keeps-bind Keeps-now
            λ at. record { keeps = λ c. Evolves-times c c.stream c.last_read_at at c.ping_sent_at }

  pub Keeps-send_encoded :
      (bytes : Bytes) (operation : String) → Keeps (send_encoded io bytes operation)
  unfolding send_encoded
  Keeps-send_encoded bytes operation = record {
    keeps = λ c.
        Evolves-if c (ltb c.max_outbound_packet_size (length bytes)) _ _ (λ large. Evolves-refl c)
          (λ fits. (Keeps-write_bytes bytes operation).keeps c);
  }

  Keeps-send_puback : (packet_id : ℕ) → Keeps (send_puback io packet_id)
  unfolding send_puback
  Keeps-send_puback packet_id = Keeps-bind (Keeps-lift _) λ bytes. Keeps-send_encoded bytes "PUBACK"

  Keeps-acknowledge : (qos : QoS) (id : Option ℕ) → Keeps (acknowledge io qos id)
  Keeps-acknowledge at_most_once id = Keeps-lift _
  Keeps-acknowledge at_least_once none = Keeps-lift _
  Keeps-acknowledge at_least_once (some id) = Keeps-send_puback id

  pub Keeps-accept_publish : (packet : PublishPacket) → Keeps (accept_publish io packet)
  unfolding accept_publish
  Keeps-accept_publish packet = record {
    keeps = λ c.
        Evolves-if c (leb c.max_incoming_messages (length c.incoming)) _ _ (λ full. Evolves-refl c)
          (λ room.
            Evolves-trans (push_back-Evolves packet c room)
              ((Keeps-acknowledge packet.qos packet.packet_id).keeps (push_back packet c)));
  }

  pub Keeps-accept_during : (packet : PublishPacket) → Keeps (accept_publish_during_ack io packet)
  unfolding accept_publish_during_ack
  Keeps-accept_during packet = record {
    keeps = λ c. Evolves-close_on c is_queue_full _ ((Keeps-accept_publish packet).keeps c);
  }
