-- ===== src/Client/Settled/Reading.antt =====
-- src/client.rs: how the loop that reads a packet ends.
use mqtt_wasi.Prelude.{
  ℕ, zero, suc, ◌-◌, ◌≡◌, refl, false, Option, none, some, [], ◌∷◌, leb, ◌==◌, arith,
}
use mqtt_wasi.Errors.{Error, Result, ok, err, ErrorKind, timeout, out_of_fuel}
use mqtt_wasi.Io.{Io, IoResult, done, failed}
use mqtt_wasi.Codec.Words.{Bytes}
use mqtt_wasi.Codec.Packets.{Packet}
use mqtt_wasi.Codec.Ping.{pingreq_bytes}
use mqtt_wasi.Codec.Publish.Identified.{IsIdentified, decode_packet-IsIdentified}
use mqtt_wasi.Frame.{FrameReader, try_decode, remaining_capacity}
use mqtt_wasi.Frame.Gives.{Gives, try_decode-Gives}
use mqtt_wasi.Client.State.{MqttClient, Deadline}
use mqtt_wasi.Client.Action.{Act, or_close, call}
use mqtt_wasi.Client.Sending.{send_encoded}
use mqtt_wasi.Client.Reading.{
  is_due, send_ping, ping_when, serve_keep_alive, service_timers, next_read_timeout, decode_next,
  forget_ping, on_packet, on_read_error, on_read, or_close_io, read_some, read_chunk, decoded_or,
  read_packet_until, read_ack_packet, is_timeout_error,
}
use mqtt_wasi.Client.Triple.{Post, Triple, Triple-bind, Post-if, Triple-call}
use mqtt_wasi.Client.Settled.{
  Never, OnTimeout, OnFuel, IsSettled, is_closed, is_open, MaySend, weaken-Post, close_on-Settled,
  send_encoded-Settled,
}

module _ {W : Type 0} where
  -- What a packet that was read says, with the client that read it.
  abbrev pub IsRead : Packet → MqttClient W → Type 0
  IsRead packet c = MaySend c × IsIdentified packet

  abbrev IsDecoded : Option Packet → MqttClient W → Type 0
  IsDecoded none c = MaySend c
  IsDecoded (some packet) c = IsRead packet c

  abbrev Closes : {A : Type 0} → Act W A → Type 0
  Closes m = Triple (IsSettled OnTimeout) MaySend m (λ a. MaySend)

  forget_ping-MaySend :
      (packet : Packet) (c : MqttClient W) → MaySend c → MaySend (forget_ping packet c)
  forget_ping-MaySend Packet.ping_resp c p = p
  forget_ping-MaySend packet c p = p

  or_close-Settled :
      (c : MqttClient W) (o : Result (Option Packet) × FrameReader)
      → Gives IsIdentified o
      → MaySend c
      → Post (IsSettled OnTimeout) IsDecoded (or_close o.0 (record c { frame_reader = o.1 }))
  or_close-Settled c (err e, reader) g p = is_closed refl
  or_close-Settled c (ok none, reader) g p = p
  or_close-Settled c (ok (some packet), reader) g p = (p, g)

  decode_next-Settled : Triple (IsSettled OnTimeout) MaySend (decode_next {W = W}) IsDecoded
  decode_next-Settled = record {
    runs = λ c p.
        or_close-Settled c (try_decode c.frame_reader)
          (try_decode-Gives IsIdentified decode_packet-IsIdentified c.frame_reader) p;
  }

  on_read_error-Settled : (kind : ErrorKind) → Closes (on_read_error kind)
  on_read_error-Settled ErrorKind.interrupted = record { runs = λ c p. p }
  on_read_error-Settled ErrorKind.timed_out = record { runs = λ c p. p }
  on_read_error-Settled ErrorKind.would_block = record { runs = λ c p. p }
  on_read_error-Settled kind = record { runs = λ c p. is_closed refl }

  or_close_io-Settled : (r : IoResult (Unit {0})) → Closes (or_close_io r)
  or_close_io-Settled (done u) = record { runs = λ c p. p }
  or_close_io-Settled (failed kind) = record { runs = λ c p. is_closed refl }

module _ {W : Type 0} (io : Io W) where
  call-Closes : {A : Type 0} (f : W → A × W) → Closes (call f)
  call-Closes f = Triple-call _ _ (λ c w p. p) f

  send_ping-Settled : Closes (send_ping io)
  send_ping-Settled =
      Triple-bind _ (λ u. MaySend) ping
        λ u. Triple-bind _ (λ at. MaySend) (call-Closes _) λ at. record { runs = λ c p. p }
    where
      ping : Closes (send_encoded io pingreq_bytes "keepalive")
      ping = record {
        runs = λ c p.
            weaken-Post Never OnTimeout _ (send_encoded io pingreq_bytes "keepalive" c)
              (λ e h. absurd (omega arith))
              ((send_encoded-Settled io pingreq_bytes "keepalive" (omega arith)).runs c p);
      }

  ping_when-Settled :
      (interval : Option ℕ) (at : ℕ) (c : MqttClient W)
      → MaySend c
      → Post (IsSettled OnTimeout) (λ u. MaySend) (ping_when io interval at c)
  ping_when-Settled none at c p = p
  ping_when-Settled (some interval) at c p =
      Post-if (IsSettled OnTimeout) MaySend _ (leb interval (at - c.last_write_at)) _ _
        (λ due. send_ping-Settled.runs c p) (λ later. p)

  serve_keep_alive-Settled :
      (sent : Option ℕ) (at : ℕ) (c : MqttClient W)
      → MaySend c
      → Post (IsSettled OnTimeout) (λ u. MaySend) (serve_keep_alive io sent at c)
  serve_keep_alive-Settled none at c p = ping_when-Settled _ at c p
  serve_keep_alive-Settled (some sent_at) at c p =
      Post-if (IsSettled OnTimeout) MaySend _ (leb c.ack_timeout (at - sent_at)) _ _
        (λ late. is_closed refl) (λ early. p)

  service_timers-Settled : (deadline : Option Deadline) → Closes (service_timers io deadline)
  unfolding service_timers
  service_timers-Settled deadline =
      Triple-bind _ (λ at. MaySend) (call-Closes _)
        λ at. record {
          runs = λ c p.
              Post-if (IsSettled OnTimeout) MaySend _ (is_due deadline at) _ _ (λ due. is_open tt)
                (λ later.
                  Post-if (IsSettled OnTimeout) MaySend _ c.connected _ _
                    (λ live. serve_keep_alive-Settled c.ping_sent_at at c p) (λ closed. p));
        }

  on_read-Settled : (r : IoResult Bytes) → Closes (on_read io r)
  on_read-Settled (done []) = record { runs = λ c p. is_closed refl }
  on_read-Settled (done (b ∷ bytes)) =
      Triple-bind _ (λ at. MaySend) (call-Closes _) λ at. record { runs = λ c p. p }
  on_read-Settled (failed kind) = on_read_error-Settled kind

  read_some-Settled : Closes (read_some io)
  read_some-Settled = record {
    runs = λ c p.
        Post-if (IsSettled OnTimeout) MaySend _ (remaining_capacity c.frame_reader == 0) _ _
          (λ full. is_closed refl)
          (λ room. (Triple-bind _ (λ r. MaySend) (call-Closes _) on_read-Settled).runs c p);
  }

  read_chunk-Settled : (deadline : Option Deadline) → Closes (read_chunk io deadline)
  unfolding read_chunk next_read_timeout
  read_chunk-Settled deadline =
      Triple-bind _ (λ u. MaySend) (service_timers-Settled deadline)
        λ u.
          Triple-bind _ (λ wait. MaySend)
            (Triple-bind _ (λ at. MaySend) (call-Closes _) λ at. record { runs = λ c p. p })
            λ wait.
              Triple-bind _ (λ set. MaySend) (call-Closes _)
                λ set. Triple-bind _ (λ u. MaySend) (or_close_io-Settled set) λ v. read_some-Settled

  on_packet-Settled :
      (packet : Packet) → Triple (IsSettled OnTimeout) (IsRead packet) (on_packet io packet) IsRead
  on_packet-Settled packet =
      Triple-bind _ (λ at. IsRead packet) (Triple-call _ _ (λ c w p. p) _)
        λ at.
          Triple-bind _ (λ u. IsRead packet) (record { runs = λ c p. p })
            λ u.
              Triple-bind _ (λ v. IsRead packet)
                (record { runs = λ c p. (forget_ping-MaySend packet c p.0, p.1) })
                λ v. record { runs = λ c p. p }

  decoded_or-Settled :
      (more : Act W Packet) (decoded : Option Packet)
      → Triple (IsSettled OnTimeout) MaySend more IsRead
      → Triple (IsSettled OnTimeout) (IsDecoded decoded) (decoded_or io more decoded) IsRead
  decoded_or-Settled more none t = t
  decoded_or-Settled more (some packet) t = on_packet-Settled packet

  -- A packet that is read is one that can be acknowledged, and the errors close the client, but for
  -- the timeout.
  read_packet_until-Settled :
      (fuel : ℕ) (deadline : Option Deadline)
      → Triple (IsSettled OnTimeout) MaySend (read_packet_until io fuel deadline) IsRead
  unfolding read_packet_until
  read_packet_until-Settled zero deadline = record { runs = λ c p. is_open tt }
  read_packet_until-Settled (suc fuel) deadline =
      Triple-bind _ IsDecoded decode_next-Settled λ decoded. decoded_or-Settled _ decoded (
        Triple-bind _ (λ u. MaySend) (read_chunk-Settled deadline)
          λ u. read_packet_until-Settled fuel deadline)

  pub read_ack_packet-Settled :
      (fuel : ℕ) (deadline : Deadline)
      → Triple (IsSettled OnFuel) MaySend (read_ack_packet io fuel deadline) IsRead
  unfolding read_ack_packet
  read_ack_packet-Settled fuel deadline = record {
    runs = λ c p.
        close_on-Settled OnTimeout OnFuel IsRead is_timeout_error
          (read_packet_until io fuel (some deadline) c) timeout-closes
          ((read_packet_until-Settled fuel (some deadline)).runs c p);
  }
    where
      timeout-closes : (e : Error) → OnTimeout e → is_timeout_error e ≡ false → OnFuel e
      timeout-closes (timeout operation) h m = cc
      timeout-closes out_of_fuel h m = tt
      timeout-closes e h m = h
