-- ===== src/Client/Acknowledged.antt =====
-- src/client.rs: a wait for a PUBACK among messages that arrive before it.
use mqtt_wasi.Prelude.{
  ℕ, zero, suc, ◌+◌, ◌≤◌, ◌<◌, ◌≡◌, refl, sym, ap, ◌∙◌, true, false, none, some, List, [], ◌∷◌,
  ◌++◌, append-nil, append_assoc, arith, length, length-append, leb, ◌==◌, ==_iff, if◌then◌else◌,
  inl,
}
use mqtt_wasi.Errors.{Result, ok}
use mqtt_wasi.Io.{Io}
use mqtt_wasi.Codec.Words.{Bytes, usize_mod}
use mqtt_wasi.Codec.Types.{at_most_once}
use mqtt_wasi.Codec.Packets.{Packet, PublishPacket}
use mqtt_wasi.Codec.Packet.Frames.{IsFrame}
use mqtt_wasi.Frame.{FrameReader, reading_header, try_decode}
use mqtt_wasi.Frame.Reading.{reader_at, try_decode-whole}
use mqtt_wasi.Client.State.{MqttClient, Deadline, validate_ack_code}
use mqtt_wasi.Client.Action.{Outcome, and_then, ◌>>=◌, ◌>>◌, lift, or_close, close_on}
use mqtt_wasi.Client.Sending.{
  push_back, acknowledge, accept_publish, accept_publish_during_ack, is_queue_full,
  protocol_failure,
}
use mqtt_wasi.Client.Reading.{
  forget_ping, decoded_or, read_chunk, read_packet_until, read_ack_packet, is_timeout_error,
}
use mqtt_wasi.Client.Waiting.{awaiting_puback, puback_loop}

-- What is buffered: frames of messages with QoS 0 and of PINGRESPs, then that of the PUBACK, and
-- anything behind it. `count` is the number of frames before the PUBACK.
pub data Arriving (max packet_id code : ℕ) : ℕ → List PublishPacket → Bytes → Type 0 where
  acknowledged :
      (frame rest : Bytes)
      → IsFrame frame (Packet.pub_ack (record { packet_id = packet_id; reason_code = code }))
      → length frame ≤ max
      → Arriving max packet_id code 0 [] (frame ++ rest)
  message :
      {count : ℕ} {messages : List PublishPacket} {bytes : Bytes} (frame : Bytes)
      (packet : PublishPacket)
      → IsFrame frame (Packet.publish packet)
      → packet.qos ≡ at_most_once
      → length frame ≤ max
      → Arriving max packet_id code count messages bytes
      → Arriving max packet_id code (suc count) (packet ∷ messages) (frame ++ bytes)
  pong :
      {count : ℕ} {messages : List PublishPacket} {bytes : Bytes} (frame : Bytes)
      → IsFrame frame Packet.ping_resp
      → length frame ≤ max
      → Arriving max packet_id code count messages bytes
      → Arriving max packet_id code (suc count) messages (frame ++ bytes)

module _ {W : Type 0} (io : Io W) where
  -- the client that has read the packet
  abbrev read_by : MqttClient W → FrameReader → MqttClient W
  read_by c reader = record c {
    frame_reader = reader;
    stream = (io.now c.stream).1;
    last_read_at = (io.now c.stream).0;
  }

  read_whole :
      (fuel : ℕ) (deadline : Deadline) (c : MqttClient W) (packet : Packet) (reader : FrameReader)
      → try_decode c.frame_reader ≡ (ok (some packet), reader)
      → read_ack_packet io (suc fuel) deadline c
        ≡ (ok packet, forget_ping packet (read_by c reader))
  unfolding read_ack_packet read_packet_until ◌>>=◌
  read_whole fuel deadline c packet reader e =
      ap
        (λ o. close_on is_timeout_error (
          and_then
            (λ decoded.
              decoded_or io
                (read_chunk io (some deadline) >> read_packet_until io fuel (some deadline))
                decoded)
            (or_close o.0 (record c { frame_reader = o.1 }))))
        e

  round :
      (fuel : ℕ) (deadline : Deadline) (id : ℕ) (c : MqttClient W) (packet : Packet)
      (reader : FrameReader)
      → try_decode c.frame_reader ≡ (ok (some packet), reader)
      → puback_loop io (suc fuel) deadline id c
        ≡ awaiting_puback io id
            (puback_loop io fuel deadline id)
            packet
            (forget_ping packet (read_by c reader))
  unfolding puback_loop ◌>>=◌
  round fuel deadline id c packet reader e =
      ap (and_then (awaiting_puback io id (puback_loop io fuel deadline id)))
        (read_whole fuel deadline c packet reader e)

  accepted :
      (packet : PublishPacket) (c : MqttClient W)
      → packet.qos ≡ at_most_once
      → length c.incoming < c.max_incoming_messages
      → accept_publish_during_ack io packet c ≡ (ok tt, push_back packet c)
  unfolding accept_publish_during_ack accept_publish
  accepted packet c qos0 room =
      let fits : leb c.max_incoming_messages (length c.incoming) ≡ false = ground arith in
      rw fits (
        ap (λ q. close_on is_queue_full (acknowledge io q packet.packet_id (push_back packet c)))
          qos0)

  -- what the wait gives, and the queue that it leaves
  abbrev pub EndsWith : Result (Unit {0}) → List PublishPacket → Outcome W (Unit {0}) → Type 0
  EndsWith result queue o = (o.0 ≡ result) × (o.1.incoming ≡ queue)

  acknowledge_round :
      (fuel : ℕ) (deadline : Deadline) (id code : ℕ) (c : MqttClient W) (reader : FrameReader)
      → try_decode c.frame_reader
        ≡ (ok (some (Packet.pub_ack (record { packet_id = id; reason_code = code }))), reader)
      → EndsWith
          (validate_ack_code "PUBACK" code)
          c.incoming
          (puback_loop io (suc fuel) deadline id c)
  unfolding protocol_failure
  acknowledge_round fuel deadline id code c reader e =
      let same : (id == id) ≡ true = (==_iff id id).1 refl in
      let run =
        round fuel deadline id c _ reader e
        ∙ ap
            (λ b.
              (if b
                  then lift (validate_ack_code "PUBACK" code)
                  else protocol_failure "unexpected packet while awaiting PUBACK")
                (read_by c reader))
            same in
      (ap (λ o. o.0) run, ap (λ o. o.1.incoming) run)

  message_round :
      (fuel : ℕ) (deadline : Deadline) (id : ℕ) (c : MqttClient W) (packet : PublishPacket)
      (reader : FrameReader)
      → try_decode c.frame_reader ≡ (ok (some (Packet.publish packet)), reader)
      → packet.qos ≡ at_most_once
      → length c.incoming < c.max_incoming_messages
      → puback_loop io (suc fuel) deadline id c
        ≡ puback_loop io fuel deadline id (push_back packet (read_by c reader))
  unfolding ◌>>=◌
  message_round fuel deadline id c packet reader e qos0 room =
      round fuel deadline id c (Packet.publish packet) reader e
      ∙ ap (and_then (λ u. puback_loop io fuel deadline id))
          (accepted packet (read_by c reader) qos0 room)

  abbrev forget : MqttClient W → MqttClient W
  forget c = record c { ping_sent_at = none }

  moved_queue :
      (result : Result (Unit {0})) (queue queue' : List PublishPacket) (o o' : Outcome W (Unit {0}))
      → o' ≡ o
      → queue ≡ queue'
      → EndsWith result queue o
      → EndsWith result queue' o'
  moved_queue result queue queue' o o' run same (e, f) =
      (ap (λ p. p.0) run ∙ e, ap (λ p. p.1.incoming) run ∙ f ∙ same)

  -- When the PUBACK is in the buffer, behind messages with QoS 0 for which the queue has room and
  -- behind PINGRESPs, the wait ends with what the PUBACK's reason code says, whatever the clock and
  -- the transport do, and the messages are queued in their order.
  pub puback_loop-Arriving :
      (max fuel count id code : ℕ) (deadline : Deadline) (messages : List PublishPacket)
      (bytes : Bytes) (c : MqttClient W)
      → Arriving max id code count messages bytes
      → c.frame_reader ≡ reader_at reading_header bytes max
      → max < usize_mod
      → count < fuel
      → length c.incoming + length messages ≤ c.max_incoming_messages
      → EndsWith
          (validate_ack_code "PUBACK" code)
          (c.incoming ++ messages)
          (puback_loop io fuel deadline id c)
  puback_loop-Arriving max zero count id code deadline messages bytes c a e small enough room =
      absurd (omega arith)
  puback_loop-Arriving max (suc fuel) count id code deadline messages bytes c
        (acknowledged frame rest f fits) e small enough room =
      let (result, queue) =
        acknowledge_round fuel deadline id code c (reader_at reading_header rest max) (
          ap try_decode e
          ∙ try_decode-whole frame _ f max fits (omega arith) reading_header rest (inl refl)) in
      (result, queue ∙ sym (append-nil c.incoming))
  puback_loop-Arriving max (suc fuel) count id code deadline messages bytes c
        (message {messages = later} {bytes = rest} frame packet f qos0 fits a) e small enough room =
      moved_queue _ _ _ _ _
        (message_round fuel deadline id c packet (reader_at reading_header rest max)
          (ap try_decode e
            ∙ try_decode-whole frame _ f max fits (omega arith) reading_header rest (inl refl))
          qos0 (omega arith))
        (append_assoc c.incoming (packet ∷ []) later)
        (puback_loop-Arriving max fuel _ id code deadline later rest _ a refl small (omega arith)
          (omega (arith, length-append c.incoming (packet ∷ []))))
  puback_loop-Arriving max (suc fuel) count id code deadline messages bytes c
        (pong {bytes = rest} frame f fits a) e small enough room =
      moved_queue _ _ _ _ _
        (round fuel deadline id c Packet.ping_resp (reader_at reading_header rest max) (
          ap try_decode e
          ∙ try_decode-whole frame _ f max fits (omega arith) reading_header rest (inl refl)))
        refl
        (puback_loop-Arriving max fuel _ id code deadline messages rest _ a refl small (omega arith)
          (omega arith))
