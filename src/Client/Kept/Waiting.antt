-- ===== src/Client/Kept/Waiting.antt =====
-- src/client.rs: the waits for an acknowledgement keep the client.
use mqtt_wasi.Prelude.{ℕ, zero, suc, String, ◌==◌, if◌then◌else◌, Bool, true, false}
use mqtt_wasi.Errors.{Result}
use mqtt_wasi.Io.{Io}
use mqtt_wasi.Codec.Types.{QoS}
use mqtt_wasi.Codec.Packets.{Packet}
use mqtt_wasi.Client.State.{Deadline}
use mqtt_wasi.Client.Action.{Act}
use mqtt_wasi.Client.Sending.{protocol_failure, server_disconnect}
use mqtt_wasi.Client.Waiting.{
  ack_deadline, is_malformed, checked, other_packet, awaiting_puback, puback_loop, wait_for_puback,
  awaiting_suback, suback_loop, wait_for_suback, awaiting_unsuback, unsuback_loop,
  wait_for_unsuback,
}
use mqtt_wasi.Client.Evolves.{
  Evolves-refl, Evolves-close_on, Keeps, Keeps-lift, Keeps-close_with, Keeps-through, Keeps-bind,
}
use mqtt_wasi.Client.Kept.{Keeps-accept_during}
use mqtt_wasi.Client.Kept.Reading.{Keeps-read_ack_packet}

module _ {W : Type 0} (io : Io W) where
  Keeps-ack_deadline : (packet : String) → Keeps (ack_deadline io packet)
  unfolding ack_deadline
  Keeps-ack_deadline packet =
      Keeps-bind (record { keeps = λ c. Evolves-refl c }) λ duration. Keeps-through _

  Keeps-checked : (r : Result (Unit {0})) → Keeps (checked {W = W} r)
  Keeps-checked r = record { keeps = λ c. Evolves-close_on c is_malformed (r, c) (Evolves-refl c) }

  Keeps-other_packet :
      (message : String) (again : Act W (Unit {0})) (packet : Packet)
      → Keeps again
      → Keeps (other_packet io message again packet)
  unfolding protocol_failure server_disconnect
  Keeps-other_packet message again (Packet.publish p) k =
      Keeps-bind (Keeps-accept_during io p) λ u. k
  Keeps-other_packet message again (Packet.disconnect p) k = Keeps-close_with _
  Keeps-other_packet message again Packet.ping_resp k = k
  Keeps-other_packet message again packet k = Keeps-close_with _

  Keeps-matching :
      {A : Type 0} (b : Bool) (m n : Act W A) → Keeps m → Keeps n → Keeps (if b then m else n)
  Keeps-matching true m n km kn = km
  Keeps-matching false m n km kn = kn

  Keeps-awaiting_puback :
      (packet_id : ℕ) (again : Act W (Unit {0})) (packet : Packet)
      → Keeps again
      → Keeps (awaiting_puback io packet_id again packet)
  unfolding protocol_failure
  Keeps-awaiting_puback packet_id again (Packet.pub_ack ack) k =
      Keeps-matching (ack.packet_id == packet_id) _ _ (Keeps-lift _) (Keeps-close_with _)
  Keeps-awaiting_puback packet_id again packet k =
      Keeps-other_packet "unexpected packet while awaiting PUBACK" again packet k

  Keeps-puback_loop :
      (fuel : ℕ) (deadline : Deadline) (packet_id : ℕ)
      → Keeps (puback_loop io fuel deadline packet_id)
  unfolding puback_loop
  Keeps-puback_loop zero deadline packet_id = Keeps-lift _
  Keeps-puback_loop (suc fuel) deadline packet_id =
      Keeps-bind (Keeps-read_ack_packet io (suc fuel) deadline) λ packet.
        Keeps-awaiting_puback packet_id _ packet (Keeps-puback_loop fuel deadline packet_id)

  pub Keeps-wait_for_puback : (fuel packet_id : ℕ) → Keeps (wait_for_puback io fuel packet_id)
  unfolding wait_for_puback
  Keeps-wait_for_puback fuel packet_id =
      Keeps-bind (Keeps-ack_deadline "PUBACK") λ deadline. Keeps-puback_loop fuel deadline packet_id

  Keeps-awaiting_suback :
      (packet_id : ℕ) (qos : QoS) (again : Act W (Unit {0})) (packet : Packet)
      → Keeps again
      → Keeps (awaiting_suback io packet_id qos again packet)
  unfolding protocol_failure
  Keeps-awaiting_suback packet_id qos again (Packet.sub_ack ack) k =
      Keeps-matching (ack.packet_id == packet_id) _ _ (Keeps-checked _) (Keeps-close_with _)
  Keeps-awaiting_suback packet_id qos again packet k =
      Keeps-other_packet "unexpected packet while awaiting SUBACK" again packet k

  Keeps-suback_loop :
      (fuel : ℕ) (deadline : Deadline) (packet_id : ℕ) (qos : QoS)
      → Keeps (suback_loop io fuel deadline packet_id qos)
  unfolding suback_loop
  Keeps-suback_loop zero deadline packet_id qos = Keeps-lift _
  Keeps-suback_loop (suc fuel) deadline packet_id qos =
      Keeps-bind (Keeps-read_ack_packet io (suc fuel) deadline) λ packet.
        Keeps-awaiting_suback packet_id qos _ packet (Keeps-suback_loop fuel deadline packet_id qos)

  pub Keeps-wait_for_suback :
      (fuel packet_id : ℕ) (qos : QoS) → Keeps (wait_for_suback io fuel packet_id qos)
  unfolding wait_for_suback
  Keeps-wait_for_suback fuel packet_id qos =
      Keeps-bind (Keeps-ack_deadline "SUBACK")
        λ deadline. Keeps-suback_loop fuel deadline packet_id qos

  Keeps-awaiting_unsuback :
      (packet_id : ℕ) (again : Act W (Unit {0})) (packet : Packet)
      → Keeps again
      → Keeps (awaiting_unsuback io packet_id again packet)
  unfolding protocol_failure
  Keeps-awaiting_unsuback packet_id again (Packet.unsub_ack ack) k =
      Keeps-matching (ack.packet_id == packet_id) _ _ (Keeps-checked _) (Keeps-close_with _)
  Keeps-awaiting_unsuback packet_id again packet k =
      Keeps-other_packet "unexpected packet while awaiting UNSUBACK" again packet k

  Keeps-unsuback_loop :
      (fuel : ℕ) (deadline : Deadline) (packet_id : ℕ)
      → Keeps (unsuback_loop io fuel deadline packet_id)
  unfolding unsuback_loop
  Keeps-unsuback_loop zero deadline packet_id = Keeps-lift _
  Keeps-unsuback_loop (suc fuel) deadline packet_id =
      Keeps-bind (Keeps-read_ack_packet io (suc fuel) deadline) λ packet.
        Keeps-awaiting_unsuback packet_id _ packet (Keeps-unsuback_loop fuel deadline packet_id)

  pub Keeps-wait_for_unsuback : (fuel packet_id : ℕ) → Keeps (wait_for_unsuback io fuel packet_id)
  unfolding wait_for_unsuback
  Keeps-wait_for_unsuback fuel packet_id =
      Keeps-bind (Keeps-ack_deadline "UNSUBACK")
        λ deadline. Keeps-unsuback_loop fuel deadline packet_id
