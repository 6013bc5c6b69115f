-- ===== src/Client/Ending.antt =====
-- src/client.rs: the loop that reads a packet ends at its deadline, on a clock that goes on.
use mqtt_wasi.Prelude.{
  ℕ, zero, suc, ◌+◌, ◌-◌, ◌≤◌, ◌<◌, ◌≡◌, ◌≢◌, refl, ap, String, Option, none, some, [], ◌∷◌, leb,
  ltb, Bool-cases, inl, inr, ◌==◌, arith, length,
}
use mqtt_wasi.Errors.{Error, Result, ok, err, ErrorKind, out_of_fuel, Ends}
use mqtt_wasi.Io.{Io, IoResult, done, failed}
use mqtt_wasi.Codec.Words.{Bytes}
use mqtt_wasi.Codec.Ping.{pingreq_bytes}
use mqtt_wasi.Codec.Packets.{Packet}
use mqtt_wasi.Frame.{FrameReader, try_decode, remaining_capacity}
use mqtt_wasi.Frame.Bounds.{IsBounded, try_decode-IsBounded, push-IsBounded}
use mqtt_wasi.Client.State.{MqttClient, Deadline, map_write_result, is_timeout}
use mqtt_wasi.Client.Action.{Act, or_close, call, now}
use mqtt_wasi.Client.Sending.{send_encoded, write_bytes}
use mqtt_wasi.Client.Reading.{
  send_ping, ping_when, serve_keep_alive, service_timers, next_read_timeout, decode_next,
  forget_ping, on_packet, on_read_error, on_read, or_close_io, read_some, wait_and_read, read_chunk,
  decoded_or, read_packet_until,
}
use mqtt_wasi.Client.Triple.{Post, Triple, Triple-bind, Post-if, Post-err, Post-fact, Triple-fact}

-- A transport whose clock never goes back, and on which a read takes time.
pub record Clocked {W : Type 0} (io : Io W) : Type 0 where
  pub clock : W → ℕ
  pub now_reads : (w : W) → clock w ≤ (io.now w).0
  pub now_later : (w : W) → clock w ≤ clock (io.now w).1
  pub write_all_later : (bytes : Bytes) (w : W) → clock w ≤ clock (io.write_all bytes w).1
  pub flush_later : (w : W) → clock w ≤ clock (io.flush w).1
  pub set_read_timeout_later :
      (duration : Option ℕ) (w : W) → clock w ≤ clock (io.set_read_timeout duration w).1
  pub read_advances : (len : ℕ) (w : W) → clock w < clock (io.read len w).1

-- An error of the source.
abbrev pub IsReal : {W : Type 0} → Error → MqttClient W → Type 0
IsReal e c = e ≢ out_of_fuel

module _ {W : Type 0} (io : Io W) (clocked : Clocked io) where
  -- The reader is bounded, and it is `t` or later.
  abbrev IsAfter : ℕ → MqttClient W → Type 0
  IsAfter t c = IsBounded c.frame_reader × (t ≤ clocked.clock c.stream)

  abbrev Runs : {A : Type 0} → ℕ → Act W A → Type 0
  Runs t m = Triple IsReal (IsAfter t) m (λ a. IsAfter t)

  Runs-call :
      {A : Type 0} (t : ℕ) (f : W → A × W)
      → ((w : W) → clocked.clock w ≤ clocked.clock (f w).1)
      → Runs t (call f)
  Runs-call t f later = record {
    runs = λ c p. (p.0, (let h = later c.stream in let q = p.1 in omega arith));
  }

  Runs-now : (t : ℕ) → Triple IsReal (IsAfter t) (now io) (λ at c. IsAfter t c × (t ≤ at))
  Runs-now t = record {
    runs = λ c p.
        let h = clocked.now_later c.stream in
        let g = clocked.now_reads c.stream in let q = p.1 in ((p.0, omega arith), omega arith);
  }

  Runs-written :
      (t : ℕ) (r : IoResult (Unit {0})) (operation : String)
      → Runs t (or_close (map_write_result r operation))
  unfolding map_write_result
  Runs-written t (done u) operation = record { runs = λ c p. p }
  Runs-written t (failed kind) operation = elim (Bool-cases (is_timeout kind)) [
    | inl e ↦ rw e (record { runs = λ c p e'. cc })
    | inr e ↦ rw e (record { runs = λ c p e'. cc })
  ]

  Runs-write_bytes :
      (t : ℕ) (bytes : Bytes) (operation : String) → Runs t (write_bytes io bytes operation)
  Runs-write_bytes t bytes operation =
      Triple-bind _ (λ r. IsAfter t) (Runs-call t _ (clocked.write_all_later bytes))
        λ r.
          Triple-bind _ (λ u. IsAfter t) (Runs-written t r operation)
            λ u.
              Triple-bind _ (λ r. IsAfter t) (Runs-call t _ clocked.flush_later)
                λ r.
                  Triple-bind _ (λ u. IsAfter t) (Runs-written t r operation)
                    λ u.
                      Triple-bind _ (λ at. IsAfter t) (Runs-call t _ clocked.now_later)
                        λ at. record { runs = λ c p. p }

  Runs-send_encoded :
      (t : ℕ) (bytes : Bytes) (operation : String) → Runs t (send_encoded io bytes operation)
  unfolding send_encoded
  Runs-send_encoded t bytes operation = record {
    runs = λ c p.
        Post-if IsReal (IsAfter t) _ (ltb c.max_outbound_packet_size (length bytes)) _ _
          (λ large e. cc) (λ fits. (Runs-write_bytes t bytes operation).runs c p);
  }

  Runs-send_ping : (t : ℕ) → Runs t (send_ping io)
  Runs-send_ping t =
      Triple-bind _ (λ u. IsAfter t) (Runs-send_encoded t pingreq_bytes "keepalive")
        λ u.
          Triple-bind _ (λ at. IsAfter t) (Runs-call t _ clocked.now_later)
            λ at. record { runs = λ c p. p }

  ping_when-Runs :
      (t : ℕ) (interval : Option ℕ) (at : ℕ) (c : MqttClient W)
      → IsAfter t c
      → Post IsReal (λ u. IsAfter t) (ping_when io interval at c)
  ping_when-Runs t none at c p = p
  ping_when-Runs t (some interval) at c p =
      Post-if IsReal (IsAfter t) _ (leb interval (at - c.last_write_at)) _ _
        (λ due. (Runs-send_ping t).runs c p) (λ later. p)

  serve_keep_alive-Runs :
      (t : ℕ) (sent : Option ℕ) (at : ℕ) (c : MqttClient W)
      → IsAfter t c
      → Post IsReal (λ u. IsAfter t) (serve_keep_alive io sent at c)
  serve_keep_alive-Runs t none at c p = ping_when-Runs t _ at c p
  serve_keep_alive-Runs t (some sent_at) at c p =
      Post-if IsReal (IsAfter t) _ (leb c.ack_timeout (at - sent_at)) _ _ (λ late e. cc)
        (λ early. p)

  -- The timers are served before the deadline only.
  service_timers-Runs :
      (t deadline : ℕ) (operation : String)
      → Triple IsReal
          (IsAfter t)
          (service_timers io (some (deadline, operation)))
          (λ u c. IsAfter t c × (t < deadline))
  unfolding service_timers
  service_timers-Runs t deadline operation =
      Triple-bind _ (λ at c. IsAfter t c × (t ≤ at)) (Runs-now t)
        λ at. record {
          runs = λ c p.
              Post-if IsReal (IsAfter t) _ (leb deadline at) _ _ (λ due e. cc)
                (λ later.
                  let early : t < deadline = let q = p.1 in ground arith in
                  Post-if IsReal (IsAfter t) _ c.connected _ _
                    (λ live.
                      Post-fact IsReal _ _ (serve_keep_alive io c.ping_sent_at at c) early
                        (serve_keep_alive-Runs t c.ping_sent_at at c p.0))
                    (λ closed. (p.0, early)));
        }

  on_read_error-Runs : (t : ℕ) (kind : ErrorKind) → Runs t (on_read_error kind)
  on_read_error-Runs t ErrorKind.interrupted = record { runs = λ c p. p }
  on_read_error-Runs t ErrorKind.timed_out = record { runs = λ c p. p }
  on_read_error-Runs t ErrorKind.would_block = record { runs = λ c p. p }
  on_read_error-Runs t kind = record { runs = λ c p e. cc }

  on_read-Runs : (t : ℕ) (r : IoResult Bytes) → Runs t (on_read io r)
  on_read-Runs t (done []) = record { runs = λ c p e. cc }
  on_read-Runs t (done (b ∷ bytes)) =
      Triple-bind _ (λ at. IsAfter t) (Runs-call t _ clocked.now_later)
        λ at. record { runs = λ c p. (push-IsBounded (b ∷ bytes) c.frame_reader p.0, p.1) }
  on_read-Runs t (failed kind) = on_read_error-Runs t kind

  or_close_io-Runs : (t : ℕ) (r : IoResult (Unit {0})) → Runs t (or_close_io r)
  or_close_io-Runs t (done u) = record { runs = λ c p. p }
  or_close_io-Runs t (failed kind) = record { runs = λ c p e. cc }

  -- A read takes time.
  read_some-Runs : (t : ℕ) → Triple IsReal (IsAfter t) (read_some io) (λ u. IsAfter (suc t))
  read_some-Runs t = record {
    runs = λ c p.
        Post-if IsReal (IsAfter t) _ (remaining_capacity c.frame_reader == 0) _ _ (λ full e. cc)
          (λ room.
            (Triple-bind IsReal (λ r. IsAfter (suc t)) advances (on_read-Runs (suc t))).runs c p);
  }
    where
      advances : {len : ℕ} → Triple IsReal (IsAfter t) (call (io.read len)) (λ r. IsAfter (suc t))
      advances {len} = record {
        runs = λ c p.
            (p.0, (let h = clocked.read_advances len c.stream in let q = p.1 in omega arith));
      }

  wait_and_read-Runs :
      (t : ℕ) (deadline : Option Deadline)
      → Triple IsReal (IsAfter t) (wait_and_read io deadline) (λ u. IsAfter (suc t))
  unfolding next_read_timeout
  wait_and_read-Runs t deadline =
      Triple-bind _ (λ wait. IsAfter t)
        (Triple-bind _ (λ at. IsAfter t) (Runs-call t _ clocked.now_later)
          λ at. record { runs = λ c p. p })
        λ wait.
          Triple-bind _ (λ set. IsAfter t) (Runs-call t _ (clocked.set_read_timeout_later wait))
            λ set. Triple-bind _ (λ u. IsAfter t) (or_close_io-Runs t set) λ u. read_some-Runs t

  read_chunk-Runs :
      (t deadline : ℕ) (operation : String)
      → Triple IsReal
          (IsAfter t)
          (read_chunk io (some (deadline, operation)))
          (λ u c. IsAfter (suc t) c × (t < deadline))
  unfolding read_chunk
  read_chunk-Runs t deadline operation =
      Triple-bind _ (λ u c. IsAfter t c × (t < deadline)) (service_timers-Runs t deadline operation)
        λ u.
          Triple-fact IsReal _ (t < deadline) _ _
            (wait_and_read-Runs t (some (deadline, operation)))

  decode_next-Runs : (t : ℕ) → Runs t decode_next
  decode_next-Runs t = record {
    runs = λ c p.
        or_close-Runs t c (try_decode c.frame_reader) (try_decode-IsBounded c.frame_reader p.0) p.1;
  }
    where
      or_close-Runs :
          (t : ℕ) (c : MqttClient W) (o : Result (Option Packet) × FrameReader)
          → IsBounded o.1 × (o.1.max_packet_size ≡ c.frame_reader.max_packet_size) × Ends o.0
          → t ≤ clocked.clock c.stream
          → Post IsReal (λ decoded. IsAfter t) (or_close o.0 (record c { frame_reader = o.1 }))
      or_close-Runs t c (ok decoded, reader) b later = (b.0, later)
      or_close-Runs t c (err e, reader) b later = λ same. b.2.ends (ap err same)

  on_packet-Runs :
      (t : ℕ) (packet : Packet)
      → Triple IsReal (IsAfter t) (on_packet io packet) (λ packet c. Unit {0})
  on_packet-Runs t packet =
      Triple-bind _ (λ at. IsAfter t) (Runs-call t _ clocked.now_later)
        λ at.
          Triple-bind _ (λ u. IsAfter t) (record { runs = λ c p. p })
            λ u.
              Triple-bind _ (λ u. IsAfter t) (record { runs = forgotten packet })
                λ u. record { runs = λ c p. tt }
    where
      forgotten :
          (packet : Packet) (c : MqttClient W) → IsAfter t c → IsAfter t (forget_ping packet c)
      forgotten Packet.ping_resp c p = p
      forgotten packet c p = p

  abbrev Reads : (MqttClient W → Type 0) → Act W Packet → Type 0
  Reads P m = Triple IsReal P m (λ packet c. Unit {0})

  decoded_or-Runs :
      (t : ℕ) (more : Act W Packet) (decoded : Option Packet)
      → Reads (IsAfter t) more
      → Reads (IsAfter t) (decoded_or io more decoded)
  decoded_or-Runs t more none k = k
  decoded_or-Runs t more (some packet) k = on_packet-Runs t packet

  -- one round, and what follows it before the deadline
  round-Runs :
      (fuel t deadline : ℕ) (operation : String)
      → Reads
          (λ c. IsAfter (suc t) c × (t < deadline))
          (read_packet_until io fuel (some (deadline, operation)))
      → Reads (IsAfter t) (read_packet_until io (suc fuel) (some (deadline, operation)))
  unfolding read_packet_until
  round-Runs fuel t deadline operation k =
      Triple-bind _ (λ decoded. IsAfter t) (decode_next-Runs t)
        λ decoded. decoded_or-Runs t _ decoded (
          Triple-bind _ (λ u c. IsAfter (suc t) c × (t < deadline))
            (read_chunk-Runs t deadline operation) λ u. k)

  loop-Runs :
      (fuel t deadline : ℕ) (operation : String)
      → deadline ≤ t + fuel
      → Reads (IsAfter t) (read_packet_until io (suc fuel) (some (deadline, operation)))
  loop-Runs zero t deadline operation enough =
      round-Runs zero t deadline operation
        (record { runs = λ c p. absurd (let q = p.1 in omega arith) })
  loop-Runs (suc fuel) t deadline operation enough =
      round-Runs (suc fuel) t deadline operation (record {
        runs = λ c p. (loop-Runs fuel (suc t) deadline operation (omega arith)).runs c p.0;
      })

  -- On a clock that goes on, `read_packet_until` with a deadline ends: with more fuel than there are
  -- nanoseconds to the deadline, a client whose reader is bounded never runs out of it, whatever
  -- the transport gives.
  pub read_packet_until-Ends :
      (fuel deadline : ℕ) (operation : String) (c : MqttClient W)
      → IsBounded c.frame_reader
      → deadline ≤ clocked.clock c.stream + fuel
      → Ends (read_packet_until io (suc fuel) (some (deadline, operation)) c).0
  read_packet_until-Ends fuel deadline operation c bounded enough = record {
    ends = λ e.
        Post-err IsReal _ (read_packet_until io (suc fuel) (some (deadline, operation)) c)
          ((loop-Runs fuel (clocked.clock c.stream) deadline operation enough).runs c
            (bounded, omega arith))
          out_of_fuel e refl;
  }
