-- ===== src/Client/Settled/Waiting.antt =====
-- src/client.rs: how `wait_for_puback`, `wait_for_suback` and `wait_for_unsuback` end.
use mqtt_wasi.Prelude.{
  ℕ, zero, suc, ◌≡◌, refl, not, ◌||◌, Bool, true, false, List, [], ◌∷◌, leb, ltb, ◌==◌, arith,
  String, length, ◌⊎◌, inl, inr, Bool-cases,
}
use mqtt_wasi.Errors.{Error, Result, ok, err, out_of_fuel, fail_if, ◌>>=◌}
use mqtt_wasi.Io.{Io}
use mqtt_wasi.Codec.Types.{QoS, qos_code}
use mqtt_wasi.Codec.Packets.{Packet}
use mqtt_wasi.Codec.Subscribe.Encode.{validate_suback_codes, suback_codes_loop}
use mqtt_wasi.Client.State.{
  MqttClient, Deadline, validate_ack_code, validate_ack_codes, each_ack_code,
}
use mqtt_wasi.Client.Action.{Act, lift}
use mqtt_wasi.Client.Sending.{protocol_failure, server_disconnect, accept_publish_during_ack}
use mqtt_wasi.Client.Reading.{read_ack_packet}
use mqtt_wasi.Client.Waiting.{
  is_malformed, checked, other_packet, awaiting_puback, puback_loop, awaiting_suback, suback_loop,
  awaiting_unsuback, unsuback_loop,
}
use mqtt_wasi.Client.Triple.{Post, Triple, Triple-bind, Triple-if}
use mqtt_wasi.Client.Settled.{
  Never, OnFuel, OnRefusal, IsSettled, is_closed, is_open, MaySend, weaken-Post,
  accept_during-Settled,
}
use mqtt_wasi.Client.Settled.Reading.{IsRead, read_ack_packet-Settled}

-- The errors are refusals of the broker, or malformed packets.
abbrev Refuses : Result (Unit {0}) → Type 0
Refuses (ok u) = Unit {0}
Refuses (err e) = OnRefusal e ⊎ (is_malformed e ≡ true)

Refuses-bind :
    (r : Result (Unit {0})) (next : Unit {0} → Result (Unit {0}))
    → Refuses r
    → ((u : Unit {0}) → Refuses (next u))
    → Refuses (r >>= next)
Refuses-bind (ok u) next h k = k u
Refuses-bind (err e) next h k = h

Refuses-fail_if :
    (b : Bool) (e : Error) → OnRefusal e ⊎ (is_malformed e ≡ true) → Refuses (fail_if b e)
Refuses-fail_if true e h = h
Refuses-fail_if false e h = tt

Refuses-suback : (codes : List ℕ) (levels : List QoS) → Refuses (validate_suback_codes codes levels)
unfolding validate_suback_codes suback_codes_loop
Refuses-suback codes levels =
    Refuses-bind (fail_if (not (length codes == length levels)) _) _
      (Refuses-fail_if _ _ (inr refl)) λ u. loop codes levels
  where
    loop : (codes : List ℕ) (levels : List QoS) → Refuses (suback_codes_loop codes levels)
    loop [] levels = tt
    loop (granted ∷ codes) [] = tt
    loop (granted ∷ codes) (requested ∷ levels) =
        Refuses-bind (fail_if (leb 0x80 granted) _) _ (Refuses-fail_if _ _ (inl tt)) λ u.
          Refuses-bind (fail_if (granted == 2 || ltb (qos_code requested) granted) _) _
            (Refuses-fail_if _ _ (inr refl)) λ v. loop codes levels

Refuses-code : (packet : String) (code : ℕ) → Refuses (validate_ack_code packet code)
unfolding validate_ack_code
Refuses-code packet code = elim (Bool-cases (leb 0x80 code)) [
  | inl e ↦ rw e (inl tt)
  | inr e ↦ rw e tt
]

Refuses-codes :
    (packet : String) (codes : List ℕ) (n : ℕ) → Refuses (validate_ack_codes packet codes n)
unfolding validate_ack_codes each_ack_code
Refuses-codes packet codes n =
    Refuses-bind (fail_if (not (length codes == n)) _) _ (Refuses-fail_if _ _ (inr refl))
      λ u. each codes
  where
    each : (codes : List ℕ) → Refuses (each_ack_code packet codes)
    each [] = tt
    each (code ∷ codes) =
        Refuses-bind (validate_ack_code packet code) _ (Refuses-code packet code) λ u. each codes

module _ {W : Type 0} where
  checked-Settled :
      (r : Result (Unit {0})) (c : MqttClient W)
      → Refuses r
      → MaySend c
      → Post (IsSettled OnRefusal) (λ u. MaySend) (checked r c)
  checked-Settled (ok u) c h p = p
  checked-Settled (err e) c (inl open_error) p = elim (Bool-cases (is_malformed e)) [
    | inl m ↦ rw m (is_closed refl)
    | inr m ↦ rw m (is_open open_error)
  ]
  checked-Settled (err e) c (inr m) p = rw m (is_closed refl)

  refused-Settled :
      (packet : String) (code : ℕ) (c : MqttClient W)
      → MaySend c
      → Post (IsSettled OnRefusal) (λ u. MaySend) (lift (validate_ack_code packet code) c)
  unfolding validate_ack_code
  refused-Settled packet code c p = elim (Bool-cases (leb 0x80 code)) [
    | inl e ↦ rw e (is_open tt)
    | inr e ↦ rw e p
  ]

module _ {W : Type 0} (io : Io W) where
  abbrev Waits : Act W (Unit {0}) → Type 0
  Waits m = Triple (IsSettled OnRefusal) MaySend m (λ u. MaySend)

  abbrev Answers : Packet → Act W (Unit {0}) → Type 0
  Answers packet m = Triple (IsSettled OnRefusal) (IsRead packet) m (λ u. MaySend)

  other_packet-Settled :
      (message : String) (again : Act W (Unit {0})) (packet : Packet)
      → Waits again
      → Answers packet (other_packet io message again packet)
  unfolding protocol_failure server_disconnect
  other_packet-Settled message again (Packet.publish packet) t =
      Triple-bind _ (λ u. MaySend) accepted λ u. t
    where
      accepted : Answers (Packet.publish packet) (accept_publish_during_ack io packet)
      accepted = record {
        runs = λ c p.
            weaken-Post Never OnRefusal _ (accept_publish_during_ack io packet c)
              (λ e h. absurd (omega arith)) ((accept_during-Settled io packet p.1).runs c p.0);
      }
  other_packet-Settled message again (Packet.disconnect packet) t = record {
    runs = λ c p. is_closed refl;
  }
  other_packet-Settled message again Packet.ping_resp t = record { runs = λ c p. t.runs c p.0 }
  other_packet-Settled message again packet t = record { runs = λ c p. is_closed refl }

  -- what is read in a wait
  next_ack :
      (fuel : ℕ) (deadline : Deadline)
      → Triple (IsSettled OnRefusal) MaySend (read_ack_packet io fuel deadline) IsRead
  next_ack fuel deadline = record {
    runs = λ c p.
        weaken-Post OnFuel OnRefusal IsRead (read_ack_packet io fuel deadline c) fuel_only
          ((read_ack_packet-Settled io fuel deadline).runs c p);
  }
    where
      fuel_only : (e : Error) → OnFuel e → OnRefusal e
      fuel_only out_of_fuel h = tt
      fuel_only e h = absurd (omega arith)

  awaiting_puback-Settled :
      (packet_id : ℕ) (again : Act W (Unit {0})) (packet : Packet)
      → Waits again
      → Answers packet (awaiting_puback io packet_id again packet)
  unfolding protocol_failure
  awaiting_puback-Settled packet_id again (Packet.pub_ack ack) t =
      Triple-if _ _ _ (ack.packet_id == packet_id) _ _
        (record { runs = λ c p. refused-Settled "PUBACK" ack.reason_code c p.0 })
        (record { runs = λ c p. is_closed refl })
  awaiting_puback-Settled packet_id again packet t =
      other_packet-Settled "unexpected packet while awaiting PUBACK" again packet t

  -- From a client whose limit is at least the four bytes of a PUBACK, when the wait for a PUBACK
  -- ends with an error, the client is closed or the broker has refused the packet: no error of the
  -- source leaves the packet identifier in use on a client that goes on.
  pub puback_loop-Settled :
      (fuel : ℕ) (deadline : Deadline) (packet_id : ℕ)
      → Waits (puback_loop io fuel deadline packet_id)
  unfolding puback_loop
  puback_loop-Settled zero deadline packet_id = record { runs = λ c p. is_open tt }
  puback_loop-Settled (suc fuel) deadline packet_id =
      Triple-bind _ IsRead (next_ack (suc fuel) deadline) λ packet.
        awaiting_puback-Settled packet_id _ packet (puback_loop-Settled fuel deadline packet_id)

  awaiting_suback-Settled :
      (packet_id : ℕ) (qos : QoS) (again : Act W (Unit {0})) (packet : Packet)
      → Waits again
      → Answers packet (awaiting_suback io packet_id qos again packet)
  unfolding protocol_failure
  awaiting_suback-Settled packet_id qos again (Packet.sub_ack ack) t =
      Triple-if _ _ _ (ack.packet_id == packet_id) _ _
        (record {
          runs = λ c p. checked-Settled _ c (Refuses-suback ack.reason_codes (qos ∷ [])) p.0;
        })
        (record { runs = λ c p. is_closed refl })
  awaiting_suback-Settled packet_id qos again packet t =
      other_packet-Settled "unexpected packet while awaiting SUBACK" again packet t

  pub suback_loop-Settled :
      (fuel : ℕ) (deadline : Deadline) (packet_id : ℕ) (qos : QoS)
      → Waits (suback_loop io fuel deadline packet_id qos)
  unfolding suback_loop
  suback_loop-Settled zero deadline packet_id qos = record { runs = λ c p. is_open tt }
  suback_loop-Settled (suc fuel) deadline packet_id qos =
      Triple-bind _ IsRead (next_ack (suc fuel) deadline) λ packet.
        awaiting_suback-Settled packet_id qos _ packet
          (suback_loop-Settled fuel deadline packet_id qos)

  awaiting_unsuback-Settled :
      (packet_id : ℕ) (again : Act W (Unit {0})) (packet : Packet)
      → Waits again
      → Answers packet (awaiting_unsuback io packet_id again packet)
  unfolding protocol_failure
  awaiting_unsuback-Settled packet_id again (Packet.unsub_ack ack) t =
      Triple-if _ _ _ (ack.packet_id == packet_id) _ _
        (record {
          runs = λ c p. checked-Settled _ c (Refuses-codes "UNSUBACK" ack.reason_codes 1) p.0;
        })
        (record { runs = λ c p. is_closed refl })
  awaiting_unsuback-Settled packet_id again packet t =
      other_packet-Settled "unexpected packet while awaiting UNSUBACK" again packet t

  pub unsuback_loop-Settled :
      (fuel : ℕ) (deadline : Deadline) (packet_id : ℕ)
      → Waits (unsuback_loop io fuel deadline packet_id)
  unfolding unsuback_loop
  unsuback_loop-Settled zero deadline packet_id = record { runs = λ c p. is_open tt }
  unsuback_loop-Settled (suc fuel) deadline packet_id =
      Triple-bind _ IsRead (next_ack (suc fuel) deadline) λ packet.
        awaiting_unsuback-Settled packet_id _ packet (unsuback_loop-Settled fuel deadline packet_id)
