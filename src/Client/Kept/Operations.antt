-- ===== src/Client/Kept/Operations.antt =====
-- src/client.rs: the public operations keep the client.
use mqtt_wasi.Prelude.{ℕ, zero, suc, Bool, true, false, Option, none, some}
use mqtt_wasi.Errors.{ok}
use mqtt_wasi.Io.{Io}
use mqtt_wasi.Codec.Words.{Bytes}
use mqtt_wasi.Codec.Types.{QoS, at_most_once, at_least_once}
use mqtt_wasi.Codec.Packets.{Packet, PublishPacket}
use mqtt_wasi.Options.{PublishOptions}
use mqtt_wasi.Client.State.{MqttClient}
use mqtt_wasi.Client.Action.{Act}
use mqtt_wasi.Client.Sending.{protocol_failure}
use mqtt_wasi.Client.Operations.{
  packet_id_for, wait_if, publish, subscribe, unsubscribe, received, recv_loop, message_or, recv,
  send_disconnect, disconnect,
}
use mqtt_wasi.Client.Evolves.{
  Evolves-refl, Evolves-close, Keeps, Keeps-lift, Keeps-close_with, Keeps-through, Keeps-bind,
}
use mqtt_wasi.Client.Kept.{
  Keeps-ensure_connected, Keeps-next_packet_id, Keeps-pop_front, Keeps-send_encoded,
  Keeps-accept_publish,
}
use mqtt_wasi.Client.Kept.Reading.{Keeps-read_packet_until}
use mqtt_wasi.Client.Kept.Waiting.{
  Keeps-wait_for_puback, Keeps-wait_for_suback, Keeps-wait_for_unsuback,
}

module _ {W : Type 0} where
  Keeps-reads : {A : Type 0} (f : MqttClient W → A) → Keeps (λ c. (ok (f c), c))
  Keeps-reads f = record { keeps = λ c. Evolves-refl c }

  Keeps-sets_close : Keeps {W = W} (λ c. (ok tt, record c { connected = false }))
  Keeps-sets_close = record { keeps = λ c. Evolves-close c }

module _ {W : Type 0} (io : Io W) where
  Keeps-packet_id_for : (qos : QoS) → Keeps (packet_id_for io qos)
  Keeps-packet_id_for at_most_once = Keeps-lift (ok none)
  Keeps-packet_id_for at_least_once =
      Keeps-bind Keeps-next_packet_id λ id. Keeps-lift (ok (some id))

  Keeps-wait_if : (fuel : ℕ) (id : Option ℕ) → Keeps (wait_if io fuel id)
  Keeps-wait_if fuel none = Keeps-lift (ok tt)
  Keeps-wait_if fuel (some id) = Keeps-wait_for_puback io fuel id

  pub Keeps-publish :
      (fuel : ℕ) (topic payload : Bytes) (options : PublishOptions)
      → Keeps (publish io fuel topic payload options)
  unfolding publish
  Keeps-publish fuel topic payload options = Keeps-bind Keeps-ensure_connected λ u.
      Keeps-bind (Keeps-lift _) λ v.
        Keeps-bind (Keeps-reads λ c. c.server_capabilities) λ capabilities.
          Keeps-bind (Keeps-lift _) λ w. Keeps-bind (Keeps-packet_id_for options.qos) λ id.
            Keeps-bind (Keeps-lift _)
              λ bytes. Keeps-bind (Keeps-send_encoded io bytes "publish") λ x. Keeps-wait_if fuel id

  pub Keeps-subscribe :
      (fuel : ℕ) (filter : Bytes) (qos : QoS) → Keeps (subscribe io fuel filter qos)
  unfolding subscribe
  Keeps-subscribe fuel filter qos = Keeps-bind Keeps-ensure_connected λ u.
      Keeps-bind (Keeps-reads λ c. c.server_capabilities) λ capabilities.
        Keeps-bind (Keeps-lift _) λ v. Keeps-bind Keeps-next_packet_id λ id.
          Keeps-bind (Keeps-lift _) λ bytes.
            Keeps-bind (Keeps-send_encoded io bytes "subscribe")
              λ x. Keeps-wait_for_suback io fuel id qos

  pub Keeps-unsubscribe : (fuel : ℕ) (filter : Bytes) → Keeps (unsubscribe io fuel filter)
  unfolding unsubscribe
  Keeps-unsubscribe fuel filter = Keeps-bind Keeps-ensure_connected λ u.
      Keeps-bind (Keeps-lift _) λ v. Keeps-bind Keeps-next_packet_id λ id.
        Keeps-bind (Keeps-lift _) λ bytes.
          Keeps-bind (Keeps-send_encoded io bytes "unsubscribe")
            λ x. Keeps-wait_for_unsuback io fuel id

  Keeps-received :
      (again : Act W (Option PublishPacket)) (packet : Packet)
      → Keeps again
      → Keeps (received io again packet)
  unfolding protocol_failure
  Keeps-received again (Packet.publish packet) k =
      Keeps-bind (Keeps-accept_publish io packet) λ u. Keeps-pop_front
  Keeps-received again (Packet.disconnect packet) k = Keeps-bind Keeps-sets_close λ u. Keeps-lift _
  Keeps-received again Packet.ping_resp k = k
  Keeps-received again packet k = Keeps-close_with _

  Keeps-recv_loop : (fuel : ℕ) → Keeps (recv_loop io fuel)
  unfolding recv_loop
  Keeps-recv_loop zero = Keeps-lift _
  Keeps-recv_loop (suc fuel) =
      Keeps-bind (Keeps-read_packet_until io (suc fuel) none)
        λ packet. Keeps-received _ packet (Keeps-recv_loop fuel)

  Keeps-message_or : (fuel : ℕ) (queued : Option PublishPacket) → Keeps (message_or io fuel queued)
  Keeps-message_or fuel none = Keeps-recv_loop fuel
  Keeps-message_or fuel (some packet) = Keeps-lift (ok (some packet))

  pub Keeps-recv : (fuel : ℕ) → Keeps (recv io fuel)
  unfolding recv
  Keeps-recv fuel =
      Keeps-bind Keeps-ensure_connected
        λ u. Keeps-bind Keeps-pop_front λ queued. Keeps-message_or fuel queued

  Keeps-send_disconnect : (connected : Bool) → Keeps (send_disconnect io connected)
  Keeps-send_disconnect false = Keeps-lift (ok tt)
  Keeps-send_disconnect true =
      Keeps-bind (Keeps-lift _)
        λ bytes. Keeps-bind (Keeps-send_encoded io bytes "disconnect") λ u. Keeps-sets_close

  pub Keeps-disconnect : Keeps (disconnect io)
  unfolding disconnect
  Keeps-disconnect =
      Keeps-bind (Keeps-reads λ c. c.connected)
        λ connected. Keeps-bind (Keeps-send_disconnect connected) λ u. Keeps-through _
