-- ===== src/Client/Sending.antt =====
-- src/client.rs: what the client writes, and its queue of received messages.
use mqtt_wasi.Prelude.{
  ℕ, ◌+◌, ◌%◌, Bool, true, false, String, Option, none, some, List, [], ◌∷◌, ◌++◌, ltb, leb, ◌==◌,
  if◌then◌else◌, length,
}
use mqtt_wasi.Errors.{
  Error, ok, err, client_closed, packet_too_large, queue_full, malformed_packet, unexpected_packet,
  connection_closed, server_disconnected,
}
use mqtt_wasi.Io.{Io}
use mqtt_wasi.Codec.Words.{Bytes, u16_mod}
use mqtt_wasi.Codec.Types.{QoS, at_most_once, at_least_once}
use mqtt_wasi.Codec.Packets.{PublishPacket, DisconnectPacket}
use mqtt_wasi.Codec.Publish.Encode.{encode_puback}
use mqtt_wasi.Client.State.{MqttClient, map_write_result}
use mqtt_wasi.Client.Action.{
  Act, ◌>>=◌, ◌>>◌, lift, done_with, raise, sets, close_on, close_with, or_close, call, now,
}

-- the identifier after `id`: `wrapping_add(1)`, and 0 is left out
abbrev pub id_after : ℕ → ℕ
id_after id = let next = (id + 1) % u16_mod in if next == 0 then 1 else next

-- the pattern `Error::QueueFull(_)`
abbrev pub is_queue_full : Error → Bool
is_queue_full (queue_full why) = true
is_queue_full _ = false

module _ {W : Type 0} where
  unfoldable pub ensure_connected : Act W (Unit {0})
  ensure_connected c = if c.connected then (ok tt, c) else (err client_closed, c)

  unfoldable pub next_packet_id : Act W ℕ
  next_packet_id c = (ok c.next_packet_id, record c { next_packet_id = id_after c.next_packet_id })

  unfoldable pub protocol_failure : {A : Type 0} → String → Act W A
  protocol_failure message = close_with (unexpected_packet message)

  unfoldable pub server_disconnect : {A : Type 0} → DisconnectPacket → Act W A
  server_disconnect packet = close_with (
      if packet.reason_code == 0x00
      then connection_closed
      else server_disconnected packet.reason_code)

  abbrev pub push_back : PublishPacket → MqttClient W → MqttClient W
  push_back packet c = record c { incoming = c.incoming ++ packet ∷ [] }

  -- `self.incoming.pop_front()`
  abbrev pub pop_from : List PublishPacket → Act W (Option PublishPacket)
  pop_from [] c = (ok none, c)
  pop_from (packet ∷ rest) c = (ok (some packet), record c { incoming = rest })

  unfoldable pub pop_front : Act W (Option PublishPacket)
  pop_front c = pop_from c.incoming c

module _ {W : Type 0} (io : Io W) where
  abbrev pub write_bytes : Bytes → String → Act W (Unit {0})
  write_bytes bytes operation = do
    written ← call (io.write_all bytes)
    or_close (map_write_result written operation)
    flushed ← call io.flush
    or_close (map_write_result flushed operation)
    at ← now io
    sets (λ c. record c { last_write_at = at })

  unfoldable pub send_encoded : Bytes → String → Act W (Unit {0})
  unfolding map_write_result
  send_encoded bytes operation c =
      if ltb c.max_outbound_packet_size (length bytes)
      then (err (packet_too_large (length bytes) c.max_outbound_packet_size), c)
      else write_bytes bytes operation c

  unfoldable pub send_puback : ℕ → Act W (Unit {0})
  unfolding send_encoded
  send_puback packet_id = do
    bytes ← lift (encode_puback (record { packet_id = packet_id; reason_code = 0x00 }))
    send_encoded bytes "PUBACK"

  abbrev pub acknowledge : QoS → Option ℕ → Act W (Unit {0})
  acknowledge at_most_once packet_id = done_with tt
  acknowledge at_least_once none =
      raise (malformed_packet "QoS 1 PUBLISH missing packet identifier")
  acknowledge at_least_once (some packet_id) = send_puback packet_id

  unfoldable pub accept_publish : PublishPacket → Act W (Unit {0})
  unfolding send_puback
  accept_publish packet c =
      if leb c.max_incoming_messages (length c.incoming)
      then (err (queue_full "incoming message"), c)
      else acknowledge packet.qos packet.packet_id (push_back packet c)

  unfoldable pub accept_publish_during_ack : PublishPacket → Act W (Unit {0})
  unfolding accept_publish
  accept_publish_during_ack packet c = close_on is_queue_full (accept_publish packet c)
