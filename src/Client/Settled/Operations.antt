-- ===== src/Client/Settled/Operations.antt =====
-- src/client.rs: what an error of `publish`, `subscribe` or `unsubscribe` leaves behind.
use mqtt_wasi.Prelude.{ℕ, ◌≡◌, refl, Option, none, some, ltb, length, String, arith}
use mqtt_wasi.Errors.{Error, Result, err, invalid_options}
use mqtt_wasi.Io.{Io}
use mqtt_wasi.Codec.Words.{Bytes}
use mqtt_wasi.Codec.Types.{QoS, at_most_once, at_least_once}
use mqtt_wasi.Options.{PublishOptions}
use mqtt_wasi.Client.State.{MqttClient}
use mqtt_wasi.Client.Action.{Act, ◌>>=◌, lift, deadline_at, deadline_after, through}
use mqtt_wasi.Client.Sending.{ensure_connected, next_packet_id, send_encoded, write_bytes}
use mqtt_wasi.Client.Waiting.{ack_deadline, wait_for_puback, wait_for_suback, wait_for_unsuback}
use mqtt_wasi.Client.Operations.{packet_id_for, wait_if, publish, subscribe, unsubscribe}
use mqtt_wasi.Client.Triple.{
  Post, Triple, Triple-bind, Triple-lift, Post-if, Post-weaken, Triple-weaken, Post-err,
}
use mqtt_wasi.Client.Settled.{Never, OnRefusal, IsSettled, MaySend, write_bytes-Settled, weaken}
use mqtt_wasi.Client.Settled.Waiting.{
  puback_loop-Settled, suback_loop-Settled, unsuback_loop-Settled,
}

module _ {W : Type 0} where
  -- An error on a client whose transport was in the state `w`: nothing was done with the transport,
  -- or the client is closed or was refused, or the clock cannot represent the deadline.
  pub data AfterError (w : W) (e : Error) (c : MqttClient W) : Type 0 where
    untouched : c.stream ≡ w → AfterError w e c
    settled : IsSettled OnRefusal e c → AfterError w e c
    no_deadline : e ≡ invalid_options "timeout is too large" → AfterError w e c

  deadline_made :
      (w : W) (packet : String) (at : Option ℕ) (c : MqttClient W)
      → MaySend c
      → Post (AfterError w) (λ d. MaySend) (deadline_at packet at, c)
  deadline_made w packet none c p = no_deadline refl
  deadline_made w packet (some at) c p = p

module _ {W : Type 0} (io : Io W) (w : W) where
  abbrev Fresh : MqttClient W → Type 0
  Fresh c = MaySend c × (c.stream ≡ w)

  -- a step that touches nothing
  abbrev Checks : {A : Type 0} → Act W A → Type 0
  Checks m = Triple (AfterError w) Fresh m (λ a. Fresh)

  Checks-lift : {A : Type 0} (r : Result A) → Checks (lift r)
  Checks-lift r = Triple-lift _ _ _ r (λ a e c p. p) (λ why e c p. untouched p.1)

  Checks-ensure_connected : Checks ensure_connected
  unfolding ensure_connected
  Checks-ensure_connected = record {
    runs = λ c p. Post-if (AfterError w) Fresh _ c.connected _ _ (λ e. p) (λ e. untouched p.1);
  }

  Checks-next_packet_id : Checks next_packet_id
  unfolding next_packet_id
  Checks-next_packet_id = record { runs = λ c p. p }

  sends :
      (bytes : Bytes) (operation : String)
      → Triple (AfterError w) Fresh (send_encoded io bytes operation) (λ u. MaySend)
  unfolding send_encoded
  sends bytes operation = record {
    runs = λ c p.
        Post-if (AfterError w) Fresh _ (ltb c.max_outbound_packet_size (length bytes)) _ _
          (λ large. untouched p.1)
          (λ fits.
            Post-weaken (IsSettled Never) (AfterError w) _
              (λ e c' s. settled (weaken e c' (λ e' h. absurd (omega arith)) s))
              (write_bytes io bytes operation c)
              ((write_bytes-Settled io bytes operation).runs c p.0));
  }

  -- a wait, behind the deadline
  deadline_set :
      (packet : String) → Triple (AfterError w) MaySend (ack_deadline io packet) (λ d. MaySend)
  unfolding ack_deadline ◌>>=◌ deadline_after
  deadline_set packet = record {
    runs = λ c p. deadline_made w packet _ (through (deadline_after io c.ack_timeout packet) c).1 p;
  }

  waits :
      {m : Act W (Unit {0})}
      → Triple (IsSettled OnRefusal) MaySend m (λ u. MaySend)
      → Triple (AfterError w) MaySend m (λ u. MaySend)
  waits {m} t = Triple-weaken _ (AfterError w) _ (λ e c s. settled s) MaySend m t

  wait_if-After :
      (fuel : ℕ) (id : Option ℕ) → Triple (AfterError w) MaySend (wait_if io fuel id) (λ u. MaySend)
  unfolding wait_for_puback
  wait_if-After fuel none = record { runs = λ c p. p }
  wait_if-After fuel (some id) =
      Triple-bind _ (λ d. MaySend) (deadline_set "PUBACK")
        λ deadline. waits (puback_loop-Settled io fuel deadline id)

  Checks-packet_id_for : (qos : QoS) → Checks (packet_id_for io qos)
  Checks-packet_id_for at_most_once = record { runs = λ c p. p }
  Checks-packet_id_for at_least_once =
      Triple-bind _ (λ id. Fresh) Checks-next_packet_id λ id. record { runs = λ c p. p }

  publish-After :
      (fuel : ℕ) (topic payload : Bytes) (options : PublishOptions)
      → Triple (AfterError w) Fresh (publish io fuel topic payload options) (λ u. MaySend)
  unfolding publish
  publish-After fuel topic payload options =
      Triple-bind _ (λ u. Fresh) Checks-ensure_connected
        λ u.
          Triple-bind _ (λ u. Fresh) (Checks-lift _)
            λ v.
              Triple-bind _ (λ u. Fresh) (record { runs = λ c p. p })
                λ capabilities.
                  Triple-bind _ (λ u. Fresh) (Checks-lift _)
                    λ v.
                      Triple-bind _ (λ id. Fresh) (Checks-packet_id_for options.qos)
                        λ id.
                          Triple-bind _ (λ b. Fresh) (Checks-lift _)
                            λ bytes.
                              Triple-bind _ (λ u. MaySend) (sends bytes "publish")
                                λ u. wait_if-After fuel id

  subscribe-After :
      (fuel : ℕ) (filter : Bytes) (qos : QoS)
      → Triple (AfterError w) Fresh (subscribe io fuel filter qos) (λ u. MaySend)
  unfolding subscribe wait_for_suback
  subscribe-After fuel filter qos =
      Triple-bind _ (λ u. Fresh) Checks-ensure_connected
        λ u.
          Triple-bind _ (λ u. Fresh) (record { runs = λ c p. p })
            λ capabilities.
              Triple-bind _ (λ u. Fresh) (Checks-lift _)
                λ v.
                  Triple-bind _ (λ id. Fresh) Checks-next_packet_id
                    λ id.
                      Triple-bind _ (λ b. Fresh) (Checks-lift _)
                        λ bytes.
                          Triple-bind _ (λ u. MaySend) (sends bytes "subscribe")
                            λ u.
                              Triple-bind _ (λ d. MaySend) (deadline_set "SUBACK")
                                λ deadline. waits (suback_loop-Settled io fuel deadline id qos)

  unsubscribe-After :
      (fuel : ℕ) (filter : Bytes)
      → Triple (AfterError w) Fresh (unsubscribe io fuel filter) (λ u. MaySend)
  unfolding unsubscribe wait_for_unsuback
  unsubscribe-After fuel filter =
      Triple-bind _ (λ u. Fresh) Checks-ensure_connected
        λ u.
          Triple-bind _ (λ u. Fresh) (Checks-lift _)
            λ v.
              Triple-bind _ (λ id. Fresh) Checks-next_packet_id
                λ id.
                  Triple-bind _ (λ b. Fresh) (Checks-lift _)
                    λ bytes.
                      Triple-bind _ (λ u. MaySend) (sends bytes "unsubscribe")
                        λ u.
                          Triple-bind _ (λ d. MaySend) (deadline_set "UNSUBACK")
                            λ deadline. waits (unsuback_loop-Settled io fuel deadline id)

module _ {W : Type 0} (io : Io W) (fuel : ℕ) (c : MqttClient W) (may_send : MaySend c)
    (e : Error) where
  -- When `publish` fails on a client whose limit is at least the four bytes of a PUBACK, then the
  -- transport is untouched, or the client is closed, or the broker refused the packet, or the clock
  -- cannot represent the deadline, or the model ran out of fuel: no other error leaves the packet's
  -- identifier in use.
  pub publish-AfterError :
      (topic payload : Bytes) (options : PublishOptions)
      → (publish io fuel topic payload options c).0 ≡ err e
      → AfterError c.stream e (publish io fuel topic payload options c).1
  publish-AfterError topic payload options h =
      Post-err _ _ (publish io fuel topic payload options c)
        ((publish-After io c.stream fuel topic payload options).runs c (may_send, refl)) e h

  -- When `subscribe` fails on a client whose limit is at least the four bytes of a PUBACK, then the
  -- transport is untouched, or the client is closed, or the broker refused the subscription, or the
  -- clock cannot represent the deadline, or the model ran out of fuel.
  pub subscribe-AfterError :
      (filter : Bytes) (qos : QoS)
      → (subscribe io fuel filter qos c).0 ≡ err e
      → AfterError c.stream e (subscribe io fuel filter qos c).1
  subscribe-AfterError filter qos h =
      Post-err _ _ (subscribe io fuel filter qos c)
        ((subscribe-After io c.stream fuel filter qos).runs c (may_send, refl)) e h

  -- The same for `unsubscribe`.
  pub unsubscribe-AfterError :
      (filter : Bytes)
      → (unsubscribe io fuel filter c).0 ≡ err e
      → AfterError c.stream e (unsubscribe io fuel filter c).1
  unsubscribe-AfterError filter h =
      Post-err _ _ (unsubscribe io fuel filter c)
        ((unsubscribe-After io c.stream fuel filter).runs c (may_send, refl)) e h
