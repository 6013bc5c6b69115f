-- ===== src/Client/Kept/Reading.antt =====
-- src/client.rs: the loop that reads a packet, and the timers, keep the client.
use mqtt_wasi.Prelude.{ℕ, zero, suc, ◌-◌, refl, Option, none, some, [], ◌∷◌, leb, ◌==◌}
use mqtt_wasi.Errors.{ok, ErrorKind}
use mqtt_wasi.Io.{Io, IoResult, done, failed}
use mqtt_wasi.Codec.Words.{Bytes}
use mqtt_wasi.Codec.Packets.{Packet}
use mqtt_wasi.Codec.Ping.{pingreq_bytes}
use mqtt_wasi.Frame.{try_decode, remaining_capacity}
use mqtt_wasi.Frame.Bounds.{IsBounded, try_decode-IsBounded, push-IsBounded}
use mqtt_wasi.Client.State.{MqttClient, Deadline, ping_interval}
use mqtt_wasi.Client.Action.{Act}
use mqtt_wasi.Client.Reading.{
  is_due, send_ping, ping_when, serve_keep_alive, service_timers, next_read_timeout, decode_next,
  forget_ping, on_packet, on_read_error, on_read, or_close_io, read_some, read_chunk, decoded_or,
  read_packet_until, read_ack_packet, is_timeout_error,
}
use mqtt_wasi.Client.Evolves.{
  Evolves, Evolves-refl, Evolves-trans, Evolves-close, Evolves-times, Evolves-close_on, Keeps,
  Keeps-lift, Keeps-close_with, Keeps-or_close, Keeps-call, Keeps-bind, Evolves-if,
}
use mqtt_wasi.Client.Kept.{Keeps-now, Keeps-send_encoded}

module _ {W : Type 0} where
  -- Another reader, with a proof that it is bounded if the old one is.
  pub set_reader-Evolves :
      (c : MqttClient W) (reader : _) (read_at : ℕ)
      → (IsBounded c.frame_reader → IsBounded reader)
      → Evolves c (record c { frame_reader = reader; last_read_at = read_at })
  set_reader-Evolves c reader read_at bounded = record {
    sound = λ s. (bounded s.0, s.1, s.2, s.3);
    closed = λ e. e;
    same_queue_max = refl;
    same_outbound_max = refl;
  }

  Keeps-forget_ping : (packet : Packet) (c : MqttClient W) → Evolves c (forget_ping packet c)
  Keeps-forget_ping Packet.ping_resp c =
      Evolves-times c c.stream c.last_read_at c.last_write_at none
  Keeps-forget_ping packet c = Evolves-refl c

module _ {W : Type 0} (io : Io W) where
  pub Keeps-send_ping : Keeps (send_ping io)
  Keeps-send_ping = Keeps-bind (Keeps-send_encoded io pingreq_bytes "keepalive") λ u.
      Keeps-bind (Keeps-now io) λ sent_at. record {
        keeps = λ c. Evolves-times c c.stream c.last_read_at c.last_write_at (some sent_at);
      }

  Keeps-ping_when :
      (interval : Option ℕ) (at : ℕ) (c : MqttClient W) → Evolves c (ping_when io interval at c).1
  Keeps-ping_when none at c = Evolves-refl c
  Keeps-ping_when (some interval) at c =
      Evolves-if c (leb interval (at - c.last_write_at)) _ _ (λ due. Keeps-send_ping.keeps c)
        (λ later. Evolves-refl c)

  Keeps-serve_keep_alive :
      (sent : Option ℕ) (at : ℕ) (c : MqttClient W) → Evolves c (serve_keep_alive io sent at c).1
  unfolding ping_interval
  Keeps-serve_keep_alive none at c = Keeps-ping_when _ at c
  Keeps-serve_keep_alive (some sent_at) at c =
      Evolves-if c (leb c.ack_timeout (at - sent_at)) _ _ (λ late. Evolves-close c)
        (λ early. Evolves-refl c)

  pub Keeps-service_timers : (deadline : Option Deadline) → Keeps (service_timers io deadline)
  unfolding service_timers
  Keeps-service_timers deadline = Keeps-bind (Keeps-now io) λ at. record {
    keeps = λ c.
        Evolves-if c (is_due deadline at) _ _ (λ due. Evolves-refl c)
          (λ later.
            Evolves-if c c.connected _ _ (λ live. Keeps-serve_keep_alive c.ping_sent_at at c)
              (λ closed. Evolves-refl c));
  }

  Keeps-next_read_timeout : (deadline : Option Deadline) → Keeps (next_read_timeout io deadline)
  unfolding next_read_timeout
  Keeps-next_read_timeout deadline =
      Keeps-bind (Keeps-now io) λ at. record { keeps = λ c. Evolves-refl c }

  Keeps-decode_next : Keeps (decode_next {W = W})
  Keeps-decode_next = record {
    keeps = λ c.
        Evolves-trans
          (set_reader-Evolves c (try_decode c.frame_reader).1 c.last_read_at
            λ b. (try_decode-IsBounded c.frame_reader b).0)
          ((Keeps-or_close (try_decode c.frame_reader).0).keeps
            (record c { frame_reader = (try_decode c.frame_reader).1 }));
  }

  Keeps-on_packet : (packet : Packet) → Keeps (on_packet io packet)
  Keeps-on_packet packet = Keeps-bind (Keeps-now io) λ at.
      Keeps-bind
        (record { keeps = λ c. Evolves-times c c.stream at c.last_write_at c.ping_sent_at })
        λ u. Keeps-bind (record { keeps = Keeps-forget_ping packet }) λ v. Keeps-lift (ok packet)

  Keeps-on_read_error : (kind : ErrorKind) → Keeps (on_read_error {W = W} kind)
  Keeps-on_read_error ErrorKind.timed_out = Keeps-lift (ok tt)
  Keeps-on_read_error ErrorKind.would_block = Keeps-lift (ok tt)
  Keeps-on_read_error ErrorKind.interrupted = Keeps-lift (ok tt)
  Keeps-on_read_error kind = Keeps-close_with _

  Keeps-on_read : (r : IoResult Bytes) → Keeps (on_read io r)
  Keeps-on_read (done []) = Keeps-close_with _
  Keeps-on_read (done (b ∷ bytes)) = Keeps-bind (Keeps-now io) λ at. record {
    keeps = λ c. set_reader-Evolves c _ at (push-IsBounded (b ∷ bytes) c.frame_reader);
  }
  Keeps-on_read (failed kind) = Keeps-on_read_error kind

  Keeps-or_close_io : (r : IoResult (Unit {0})) → Keeps (or_close_io {W = W} r)
  Keeps-or_close_io (done u) = Keeps-lift (ok tt)
  Keeps-or_close_io (failed kind) = Keeps-close_with _

  Keeps-read_some : Keeps (read_some io)
  Keeps-read_some = record {
    keeps = λ c.
        Evolves-if c (remaining_capacity c.frame_reader == 0) _ _ (λ full. Evolves-close c)
          (λ room. (Keeps-bind (Keeps-call (io.read _)) Keeps-on_read).keeps c);
  }

  pub Keeps-read_chunk : (deadline : Option Deadline) → Keeps (read_chunk io deadline)
  unfolding read_chunk
  Keeps-read_chunk deadline = Keeps-bind (Keeps-service_timers deadline) λ u.
      Keeps-bind (Keeps-next_read_timeout deadline) λ wait.
        Keeps-bind (Keeps-call (io.set_read_timeout wait))
          λ set. Keeps-bind (Keeps-or_close_io set) λ v. Keeps-read_some

  Keeps-decoded_or :
      (more : Act W Packet) (decoded : Option Packet)
      → Keeps more
      → Keeps (decoded_or io more decoded)
  Keeps-decoded_or more none k = k
  Keeps-decoded_or more (some packet) k = Keeps-on_packet packet

  pub Keeps-read_packet_until :
      (fuel : ℕ) (deadline : Option Deadline) → Keeps (read_packet_until io fuel deadline)
  unfolding read_packet_until
  Keeps-read_packet_until zero deadline = Keeps-lift _
  Keeps-read_packet_until (suc fuel) deadline = Keeps-bind Keeps-decode_next λ decoded.
      Keeps-decoded_or _ decoded
        (Keeps-bind (Keeps-read_chunk deadline) λ u. Keeps-read_packet_until fuel deadline)

  pub Keeps-read_ack_packet :
      (fuel : ℕ) (deadline : Deadline) → Keeps (read_ack_packet io fuel deadline)
  unfolding read_ack_packet
  Keeps-read_ack_packet fuel deadline = record {
    keeps = λ c.
        Evolves-close_on c is_timeout_error _
          ((Keeps-read_packet_until fuel (some deadline)).keeps c);
  }
