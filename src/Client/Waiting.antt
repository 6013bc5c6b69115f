-- ===== src/Client/Waiting.antt =====
-- src/client.rs: the waits for an acknowledgement.
use mqtt_wasi.Prelude.{ℕ, zero, suc, Bool, true, false, String, [], ◌∷◌, ◌==◌, if◌then◌else◌}
use mqtt_wasi.Errors.{Error, Result, out_of_fuel, malformed_packet}
use mqtt_wasi.Io.{Io}
use mqtt_wasi.Codec.Types.{QoS}
use mqtt_wasi.Codec.Packets.{Packet}
use mqtt_wasi.Codec.Subscribe.Encode.{validate_suback_codes}
use mqtt_wasi.Client.State.{Deadline, validate_ack_code, validate_ack_codes}
use mqtt_wasi.Client.Action.{
  Act, ◌>>=◌, ◌>>◌, lift, raise, reads, close_on, through, deadline_after,
}
use mqtt_wasi.Client.Sending.{accept_publish_during_ack, protocol_failure, server_disconnect}
use mqtt_wasi.Client.Reading.{read_ack_packet}

-- the pattern `Error::MalformedPacket(_)`
abbrev pub is_malformed : Error → Bool
is_malformed (malformed_packet why) = true
is_malformed _ = false

module _ {W : Type 0} where
  abbrev pub checked : Result (Unit {0}) → Act W (Unit {0})
  checked result c = close_on is_malformed (result, c)

module _ {W : Type 0} (io : Io W) where
  unfoldable pub ack_deadline : String → Act W Deadline
  unfolding deadline_after
  ack_deadline packet = do
    duration ← reads λ c. c.ack_timeout
    through (deadline_after io duration packet)

  -- `if matches!(result, Err(Error::MalformedPacket(_))) { self.connected = false; }`
  -- the arms that the three waits share, where `again` is the next round of the loop
  abbrev pub other_packet : String → Act W (Unit {0}) → Packet → Act W (Unit {0})
  other_packet message again (Packet.publish packet) = do accept_publish_during_ack io packet; again
  other_packet message again (Packet.disconnect packet) = server_disconnect packet
  other_packet message again Packet.ping_resp = again
  other_packet message again _ = protocol_failure message

  abbrev pub awaiting_puback : ℕ → Act W (Unit {0}) → Packet → Act W (Unit {0})
  awaiting_puback packet_id again (Packet.pub_ack ack) =
      if ack.packet_id == packet_id
      then lift (validate_ack_code "PUBACK" ack.reason_code)
      else protocol_failure "unexpected packet while awaiting PUBACK"
  awaiting_puback packet_id again packet =
      other_packet "unexpected packet while awaiting PUBACK" again packet

  unfoldable pub puback_loop : ℕ → Deadline → ℕ → Act W (Unit {0})
  unfolding accept_publish_during_ack protocol_failure server_disconnect read_ack_packet
  puback_loop zero deadline packet_id = raise out_of_fuel
  puback_loop (suc fuel) deadline packet_id = do
    packet ← read_ack_packet io (suc fuel) deadline
    awaiting_puback packet_id (puback_loop fuel deadline packet_id) packet

  unfoldable pub wait_for_puback : ℕ → ℕ → Act W (Unit {0})
  unfolding ack_deadline puback_loop
  wait_for_puback fuel packet_id = do
    deadline ← ack_deadline "PUBACK"
    puback_loop fuel deadline packet_id

  abbrev pub awaiting_suback : ℕ → QoS → Act W (Unit {0}) → Packet → Act W (Unit {0})
  awaiting_suback packet_id requested_qos again (Packet.sub_ack ack) =
      if ack.packet_id == packet_id
      then checked (validate_suback_codes ack.reason_codes (requested_qos ∷ []))
      else protocol_failure "unexpected packet while awaiting SUBACK"
  awaiting_suback packet_id requested_qos again packet =
      other_packet "unexpected packet while awaiting SUBACK" again packet

  unfoldable pub suback_loop : ℕ → Deadline → ℕ → QoS → Act W (Unit {0})
  unfolding accept_publish_during_ack protocol_failure server_disconnect read_ack_packet
  suback_loop zero deadline packet_id requested_qos = raise out_of_fuel
  suback_loop (suc fuel) deadline packet_id requested_qos = do
    packet ← read_ack_packet io (suc fuel) deadline
    awaiting_suback packet_id requested_qos (suback_loop fuel deadline packet_id requested_qos)
        packet

  unfoldable pub wait_for_suback : ℕ → ℕ → QoS → Act W (Unit {0})
  unfolding ack_deadline suback_loop
  wait_for_suback fuel packet_id requested_qos = do
    deadline ← ack_deadline "SUBACK"
    suback_loop fuel deadline packet_id requested_qos

  abbrev pub awaiting_unsuback : ℕ → Act W (Unit {0}) → Packet → Act W (Unit {0})
  awaiting_unsuback packet_id again (Packet.unsub_ack ack) =
      if ack.packet_id == packet_id
      then checked (validate_ack_codes "UNSUBACK" ack.reason_codes 1)
      else protocol_failure "unexpected packet while awaiting UNSUBACK"
  awaiting_unsuback packet_id again packet =
      other_packet "unexpected packet while awaiting UNSUBACK" again packet

  unfoldable pub unsuback_loop : ℕ → Deadline → ℕ → Act W (Unit {0})
  unfolding accept_publish_during_ack protocol_failure server_disconnect read_ack_packet
  unsuback_loop zero deadline packet_id = raise out_of_fuel
  unsuback_loop (suc fuel) deadline packet_id = do
    packet ← read_ack_packet io (suc fuel) deadline
    awaiting_unsuback packet_id (unsuback_loop fuel deadline packet_id) packet

  unfoldable pub wait_for_unsuback : ℕ → ℕ → Act W (Unit {0})
  unfolding ack_deadline unsuback_loop
  wait_for_unsuback fuel packet_id = do
    deadline ← ack_deadline "UNSUBACK"
    unsuback_loop fuel deadline packet_id
