-- ===== src/Client/Operations.antt =====
-- src/client.rs: the public operations of `MqttClient`, and the iterator over what it receives. The
-- fuel is that of the loops that read.
use mqtt_wasi.Prelude.{
  ℕ, zero, suc, Bool, true, false, String, Option, none, some, [], ◌∷◌, ◌==◌, if◌then◌else◌, ◌⊎◌,
  inl, inr,
}
use mqtt_wasi.Errors.{Result, ok, err, out_of_fuel, server_disconnected, serialize}
use mqtt_wasi.Io.{Io}
use mqtt_wasi.Codec.Words.{Bytes}
use mqtt_wasi.Codec.Types.{QoS, at_most_once, at_least_once}
use mqtt_wasi.Codec.Properties.{no_properties}
use mqtt_wasi.Codec.Packets.{Packet, PublishPacket, DisconnectPacket}
use mqtt_wasi.Codec.Topic.{validate_topic_name, validate_topic_filter}
use mqtt_wasi.Codec.Connect.Capabilities.{validate_publish, validate_subscription_filter}
use mqtt_wasi.Codec.Publish.Encode.{encode_publish}
use mqtt_wasi.Codec.Subscribe.Encode.{encode_subscribe, encode_unsubscribe}
use mqtt_wasi.Codec.Ping.Encode.{encode_disconnect}
use mqtt_wasi.Options.{PublishOptions}
use mqtt_wasi.Client.State.{MqttClient}
use mqtt_wasi.Client.Action.{
  Act, Outcome, ◌>>=◌, ◌>>◌, lift, done_with, raise, reads, sets, close, through, io_call,
}
use mqtt_wasi.Client.Sending.{
  ensure_connected, next_packet_id, send_encoded, accept_publish, protocol_failure, pop_front,
}
use mqtt_wasi.Client.Reading.{read_packet_until}
use mqtt_wasi.Client.Waiting.{wait_for_puback, wait_for_suback, wait_for_unsuback}

module _ {W : Type 0} (io : Io W) where
  -- `(options.qos != QoS::AtMostOnce).then(|| self.next_packet_id())`
  abbrev pub packet_id_for : QoS → Act W (Option ℕ)
  packet_id_for at_most_once = done_with none
  packet_id_for at_least_once = do id ← next_packet_id; done_with (some id)

  abbrev pub publish_packet : Bytes → Bytes → PublishOptions → Option ℕ → PublishPacket
  publish_packet topic payload options packet_id = record {
    topic = topic;
    packet_id = packet_id;
    payload = payload;
    qos = options.qos;
    retain = options.retain;
    dup = false;
    properties = options.properties;
  }

  abbrev pub wait_if : ℕ → Option ℕ → Act W (Unit {0})
  wait_if fuel none = done_with tt
  wait_if fuel (some packet_id) = wait_for_puback io fuel packet_id

  unfoldable pub publish : ℕ → Bytes → Bytes → PublishOptions → Act W (Unit {0})
  unfolding ensure_connected next_packet_id send_encoded wait_for_puback
  publish fuel topic payload options = do
    ensure_connected
    lift (validate_topic_name topic)
    capabilities ← reads λ c. c.server_capabilities
    lift (validate_publish capabilities options.qos options.retain)
    packet_id ← packet_id_for options.qos
    bytes ← lift (encode_publish (publish_packet topic payload options packet_id))
    send_encoded io bytes "publish"
    wait_if fuel packet_id

  -- what `serde_json::to_vec` gives: the text of an error, or bytes
  abbrev pub serialized : String ⊎ Bytes → Result Bytes
  serialized (inl why) = err (serialize why)
  serialized (inr bytes) = ok bytes

  unfoldable pub publish_json :
      {P : Type 0} (to_vec : P → String ⊎ Bytes) → ℕ → Bytes → P → PublishOptions → Act W (Unit {0})
  unfolding publish
  publish_json to_vec fuel topic payload options = do
    bytes ← lift (serialized (to_vec payload))
    publish fuel topic bytes options

  unfoldable pub subscribe : ℕ → Bytes → QoS → Act W (Unit {0})
  unfolding ensure_connected next_packet_id send_encoded wait_for_suback
  subscribe fuel filter qos = do
    ensure_connected
    capabilities ← reads λ c. c.server_capabilities
    lift (validate_subscription_filter capabilities filter)
    packet_id ← next_packet_id
    bytes ← lift (
        encode_subscribe (record {
          packet_id = packet_id;
          filters = (filter, qos) ∷ [];
          properties = no_properties;
        }))
    send_encoded io bytes "subscribe"
    wait_for_suback io fuel packet_id qos

  unfoldable pub unsubscribe : ℕ → Bytes → Act W (Unit {0})
  unfolding ensure_connected next_packet_id send_encoded wait_for_unsuback
  unsubscribe fuel filter = do
    ensure_connected
    lift (validate_topic_filter filter)
    packet_id ← next_packet_id
    bytes ← lift (
        encode_unsubscribe
          (record { packet_id = packet_id; filters = filter ∷ []; properties = no_properties }))
    send_encoded io bytes "unsubscribe"
    wait_for_unsuback io fuel packet_id

  abbrev pub closed_by : DisconnectPacket → Act W (Option PublishPacket)
  closed_by packet = do
    sets close
    lift (
        if packet.reason_code == 0x00
        then ok none
        else err (server_disconnected packet.reason_code))

  abbrev pub received : Act W (Option PublishPacket) → Packet → Act W (Option PublishPacket)
  received again (Packet.publish packet) = do accept_publish io packet; pop_front
  received again (Packet.disconnect packet) = closed_by packet
  received again Packet.ping_resp = again
  received again _ = protocol_failure "unexpected packet while receiving"

  unfoldable pub recv_loop : ℕ → Act W (Option PublishPacket)
  unfolding accept_publish protocol_failure pop_front read_packet_until
  recv_loop zero = raise out_of_fuel
  recv_loop (suc fuel) = do
    packet ← read_packet_until io (suc fuel) none
    received (recv_loop fuel) packet

  abbrev pub message_or : ℕ → Option PublishPacket → Act W (Option PublishPacket)
  message_or fuel none = recv_loop fuel
  message_or fuel (some packet) = done_with (some packet)

  unfoldable pub recv : ℕ → Act W (Option PublishPacket)
  unfolding ensure_connected pop_front recv_loop
  recv fuel = do ensure_connected; queued ← pop_front; message_or fuel queued

  abbrev pub send_disconnect : Bool → Act W (Unit {0})
  send_disconnect false = done_with tt
  send_disconnect true = do
    bytes ← lift (encode_disconnect (record { reason_code = 0x00 }))
    send_encoded io bytes "disconnect"
    sets close

  unfoldable pub disconnect : Act W (Unit {0})
  unfolding send_encoded
  disconnect = do
    connected ← reads λ c. c.connected
    send_disconnect connected
    through (io_call io.shutdown)

-- The iterator: the client and the flag `done`.
pub record Incoming (W : Type 0) : Type 0 where
  pub client : MqttClient W
  pub is_done : Bool

module _ {W : Type 0} (io : Io W) where
  abbrev pub incoming : MqttClient W → Incoming W
  incoming c = record { client = c; is_done = false }

  abbrev pub item : Outcome W (Option PublishPacket) → Option (Result PublishPacket) × Incoming W
  item (ok (some message), c) = (some (ok message), record { client = c; is_done = false })
  item (ok none, c) = (none, record { client = c; is_done = true })
  item (err e, c) = (some (err e), record { client = c; is_done = true })

  unfoldable pub next : ℕ → Incoming W → Option (Result PublishPacket) × Incoming W
  unfolding recv
  next fuel it = if it.is_done then (none, it) else item (recv io fuel it.client)
