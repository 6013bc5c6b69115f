-- ===== src/Client/Connected.antt =====
-- src/client.rs: the client that `connect_with` gives, and what the operations make of it.
use mqtt_wasi.Prelude.{ℕ, ◌≡◌, refl, true, Option, none, some, arith}
use mqtt_wasi.Errors.{Result, ok, err}
use mqtt_wasi.Io.{Io}
use mqtt_wasi.Codec.Words.{Bytes}
use mqtt_wasi.Codec.Types.{QoS}
use mqtt_wasi.Codec.Packets.{Packet, ConnAckPacket}
use mqtt_wasi.Codec.Connect.Capabilities.{ServerCapabilities}
use mqtt_wasi.Options.{ConnectOptions, PublishOptions}
use mqtt_wasi.Client.State.{MqttClient, Deadline}
use mqtt_wasi.Client.Action.{Act, Outcome, Does, and_then, ◌>>=◌, lift, through}
use mqtt_wasi.Client.Connecting.{
  new_client, expect_connack, set_capabilities, set_keep_alive, set_outbound, negotiate, handshake,
  with_client, connect_with,
}
use mqtt_wasi.Client.Operations.{publish, subscribe, unsubscribe, recv}
use mqtt_wasi.Client.Evolves.{IsSound, Evolves, Evolves-refl, Evolves-trans, Keeps, Keeps-lift}
use mqtt_wasi.Client.Triple.{Post, Triple, Triple-bind}
use mqtt_wasi.Client.Kept.{Keeps-send_encoded}
use mqtt_wasi.Client.Kept.Reading.{Keeps-read_packet_until}
use mqtt_wasi.Client.Kept.Operations.{Keeps-publish, Keeps-subscribe, Keeps-unsubscribe, Keeps-recv}

module _ {W : Type 0} where
  abbrev Sound : {A : Type 0} → A → MqttClient W → Type 0
  Sound a = IsSound

  -- a method under which a sound client stays sound
  abbrev Preserves : {A : Type 0} → Act W A → Type 0
  Preserves m = Triple (λ e c. IsSound c) IsSound m (λ a. IsSound)

  Post-IsSound :
      {A : Type 0} (o : Outcome W A) → IsSound o.1 → Post (λ e c. IsSound c) (λ a. IsSound) o
  Post-IsSound (ok a, c) s = s
  Post-IsSound (err e, c) s = s

  Preserves-Keeps : {A : Type 0} (m : Act W A) → Keeps m → Preserves m
  Preserves-Keeps m k = record { runs = λ c s. Post-IsSound (m c) ((k.keeps c).sound s) }

  Preserves-expect_connack :
      (packet : Packet) → Preserves {A = ConnAckPacket} (expect_connack packet)
  Preserves-expect_connack (Packet.conn_ack ack) = record { runs = λ c s. s }
  Preserves-expect_connack packet = record { runs = λ c s. s }

  Preserves-capabilities : (o : Option ServerCapabilities) → Preserves (set_capabilities o)
  Preserves-capabilities none = record { runs = λ c s. s }
  Preserves-capabilities (some capabilities) = record { runs = λ c s. s }

  Preserves-keep_alive : (o : Option ℕ) → Preserves (set_keep_alive o)
  Preserves-keep_alive none = record { runs = λ c s. s }
  Preserves-keep_alive (some secs) = record { runs = λ c s. s }

  Preserves-lift : {A : Type 0} (r : Result A) → Preserves (lift r)
  Preserves-lift r = Preserves-Keeps _ (Keeps-lift r)

  Preserves-outbound : (o : Option ℕ) → Preserves (set_outbound o)
  Preserves-outbound none = record { runs = λ c s. s }
  Preserves-outbound (some max) =
      Triple-bind _ (λ u. IsSound) (Preserves-lift _) λ u. record { runs = λ c s. s }

  Preserves-negotiate :
      (options : ConnectOptions) (ack : ConnAckPacket) → Preserves (negotiate options ack)
  unfolding negotiate
  Preserves-negotiate options ack =
      Triple-bind _ (λ u. IsSound) (Preserves-lift _)
        λ u.
          Triple-bind _ (λ u. IsSound) (Preserves-lift _)
            λ u.
              Triple-bind _ (λ u. IsSound) (Preserves-capabilities _)
                λ u. Triple-bind _ (λ u. IsSound) (Preserves-keep_alive _) λ u. Preserves-outbound _

  new_client-IsSound :
      (options : ConnectOptions) (at : ℕ) (stream : W) → IsSound (new_client options at stream)
  new_client-IsSound options at stream =
      (record { buffered = omega arith; declared = tt }, omega arith, omega arith, omega arith)

  -- a client after the handshake
  abbrev pub IsReady : MqttClient W → Type 0
  IsReady c = IsSound c × (c.connected ≡ true)

  stream-Ready :
      {A : Type 0} (c : MqttClient W) (r : Result A) (w : W)
      → IsReady c
      → Post (λ e c. IsSound c) (λ a. IsReady) (r, record c { stream = w })
  stream-Ready c (ok a) w s = s
  stream-Ready c (err e) w s = s.0

  on_stream :
      {A : Type 0} (m : Does W A) → Triple (λ e c. IsSound c) IsReady (through m) (λ a. IsReady)
  on_stream m = record { runs = λ c s. stream-Ready c (m c.stream).0 (m c.stream).1 s }

  -- Whatever a computation on the transport gives satisfies `P`.
  abbrev Holds : {A : Type 0} → (A → Type 0) → Result A × W → Type 0
  Holds P (ok a, w) = P a
  Holds P (err e, w) = Unit {0}

  record Makes {A : Type 0} (P : A → Type 0) (m : Does W A) : Type 0 where
    at : (w : W) → Holds P (m w)

  Holds-and_then :
      {A B : Type 0} (P : B → Type 0) (o : Result A × W) (next : A → Does W B)
      → ((a : A) → Makes P (next a))
      → Holds P (and_then next o)
  Holds-and_then P (ok a, w) next k = (k a).at w
  Holds-and_then P (err e, w) next k = tt

  Makes-after :
      {A B : Type 0} (P : B → Type 0) (m : Does W A) (next : A → Does W B)
      → ((a : A) → Makes P (next a))
      → Makes P (m >>= next)
  unfolding ◌>>=◌
  Makes-after P m next k = record { at = λ w. Holds-and_then P (m w) next k }

  made_client :
      (o : Outcome W (Unit {0}))
      → Post (λ e c. IsSound c) (λ u. IsReady) o
      → Holds IsReady (with_client o)
  made_client (ok u, c) p = p
  made_client (err e, c) p = tt

module _ {W : Type 0} (io : Io W) where
  Preserves-handshake :
      (fuel : ℕ) (options : ConnectOptions) (deadline : Deadline)
      → Triple (λ e c. IsSound c) IsSound (handshake io fuel options deadline) (λ u. IsReady)
  unfolding handshake
  Preserves-handshake fuel options deadline =
      Triple-bind _ (λ u. IsSound) (Preserves-lift _)
        λ u.
          Triple-bind _ (λ u. IsSound) (Preserves-lift _)
            λ bytes.
              Triple-bind _ (λ u. IsSound)
                (Preserves-Keeps _ (Keeps-send_encoded io bytes "connect"))
                λ u.
                  Triple-bind _ (λ u. IsSound)
                    (Preserves-Keeps _ (Keeps-read_packet_until io fuel (some deadline)))
                    λ packet.
                      Triple-bind _ (λ u. IsSound) (Preserves-expect_connack packet)
                        λ ack.
                          Triple-bind _ (λ u. IsSound) (Preserves-negotiate options ack)
                            λ u.
                              Triple-bind _ (λ u. IsReady) (record { runs = λ c s. (s, refl) })
                                λ u.
                                  Triple-bind _ (λ u. IsReady) (on_stream _)
                                    λ u.
                                      Triple-bind _ (λ t. IsReady) (record { runs = λ c s. s })
                                        λ t. on_stream _

  connect_with-Makes :
      (fuel : ℕ) (options : ConnectOptions) → Makes IsReady (connect_with io fuel options)
  unfolding connect_with
  connect_with-Makes fuel options = Makes-after IsReady _ _ λ u. Makes-after IsReady _ _ λ deadline.
      Makes-after IsReady _ _ λ u. Makes-after IsReady _ _ λ u. Makes-after IsReady _ _ λ u.
        Makes-after IsReady _ _ λ at. record {
          at = λ w. made_client (handshake io fuel options deadline (new_client options at w)) (
              (Preserves-handshake fuel options deadline).runs _ (new_client-IsSound options at w));
        }

  -- One call of an operation on a client, whatever it gives.
  pub data Call (c : MqttClient W) : MqttClient W → Type 0 where
    publishes :
        (fuel : ℕ) (topic payload : Bytes) (options : PublishOptions)
        → Call c (publish io fuel topic payload options c).1
    subscribes : (fuel : ℕ) (filter : Bytes) (qos : QoS) → Call c (subscribe io fuel filter qos c).1
    unsubscribes : (fuel : ℕ) (filter : Bytes) → Call c (unsubscribe io fuel filter c).1
    receives : (fuel : ℕ) → Call c (recv io fuel c).1

  -- Any number of calls, the last one last.
  pub data History (c : MqttClient W) : MqttClient W → Type 0 where
    none_yet : History c c
    then_call : {c' c'' : MqttClient W} → History c c' → Call c' c'' → History c c''

  Call-Evolves : {c c' : MqttClient W} → Call c c' → Evolves c c'
  Call-Evolves {c} (publishes fuel topic payload options) =
      (Keeps-publish io fuel topic payload options).keeps c
  Call-Evolves {c} (subscribes fuel filter qos) = (Keeps-subscribe io fuel filter qos).keeps c
  Call-Evolves {c} (unsubscribes fuel filter) = (Keeps-unsubscribe io fuel filter).keeps c
  Call-Evolves {c} (receives fuel) = (Keeps-recv io fuel).keeps c

  -- After any calls of the operations, whatever the transport does and whatever they give, a sound
  -- client is sound, a client that was closed is closed, and the limits on the queue and on the
  -- packets are the same.
  pub History-Evolves : {c c' : MqttClient W} → History c c' → Evolves c c'
  History-Evolves {c} none_yet = Evolves-refl c
  History-Evolves (then_call h call) = Evolves-trans (History-Evolves h) (Call-Evolves call)

  -- What `connect_with` gives is connected, and it is sound after any calls of the operations: the
  -- reader and the queue are within their limits, and the next packet identifier is one of 1 to
  -- 65535.
  pub connect_with-IsSound :
      (fuel : ℕ) (options : ConnectOptions) (w w' : W) (c c' : MqttClient W)
      → connect_with io fuel options w ≡ (ok c, w')
      → History c c'
      → (c.connected ≡ true) × IsSound c'
  connect_with-IsSound fuel options w w' c c' e h =
      let ready : IsReady c = rw e at ((connect_with-Makes fuel options).at w) in
      (ready.1, (History-Evolves h).sound ready.0)
