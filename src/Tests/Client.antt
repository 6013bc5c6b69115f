-- ===== src/Tests/Client.antt =====
-- Tests and examples of the blocking client (src/client.rs), over a transport that replays a script
-- and a clock that ticks.
use mqtt_wasi.Codec.Subscribe.{is_suback_reason_code}
use mqtt_wasi.Codec.Subscribe.Decode.{decode_suback, read_suback}
use mqtt_wasi.Codec.Subscribe.Encode.{
  encode_subscribe, subscribe_body, encode_subscriptions, validate_suback_codes,
}
use mqtt_wasi.Codec.Publish.{is_puback_reason_code}
use mqtt_wasi.Codec.Publish.Decode.{decode_puback, read_puback}
use mqtt_wasi.Codec.Publish.Encode.{encode_publish, publish_body, check_packet_id, publish_flags}
use mqtt_wasi.Codec.Topic.{
  validate_topic_name, validate_topic_filter, validate_filter_levels, is_shared,
}
use mqtt_wasi.Codec.Properties.Decode.{decode_for, decode_inner, skip_properties}
use mqtt_wasi.Codec.Connect.{is_connack_reason_code}
use mqtt_wasi.Codec.Connect.Decode.{decode_connack, read_connack}
use mqtt_wasi.Codec.Packet.{decode_packet, decode_body}
use mqtt_wasi.Codec.Types.{packet_type_from_u8, packet_type_code, qos_code}
use mqtt_wasi.Codec.Cursor.{read_u8, read_variable_int, variable_int_loop, read_u16}
use mqtt_wasi.Codec.FixedHeader.{encode_fixed_header, validate_fixed_header, decode_fixed_header}
use mqtt_wasi.Codec.Properties.{allows, property_id_code, same_id, get_byte, get_u16, get_u32}
use mqtt_wasi.Codec.Properties.Validate.{is_forbidden, validate_property}
use mqtt_wasi.Codec.Properties.Encode.{
  encode_for, encode_inner, encode_entries, encode_entry, encode_value,
}
use mqtt_wasi.Codec.Encode.{
  encode_string, encode_variable_int, encode_variable_int_loop, encode_u16,
}
use mqtt_wasi.Codec.Connect.Encode.{encode_connect, connect_body}
use mqtt_wasi.Prelude.{
  ℕ, suc, ◌≡◌, ◌≢◌, refl, true, false, none, some, List, [], ◌∷◌, ◌++◌, arith, length,
}
use mqtt_wasi.Errors.{ok, err, ack_rejected, Ends}
use mqtt_wasi.Codec.Utf8.{is_utf8}
use mqtt_wasi.Codec.Packets.{PublishPacket, PubAckPacket}
use mqtt_wasi.Codec.Publish.RoundTrip.{IsFrame-encode_publish}
use mqtt_wasi.Codec.Publish.AckRoundTrip.{IsFrame-encode_puback}
use mqtt_wasi.Frame.{reading_header}
use mqtt_wasi.Frame.Reading.{reader_at}
use mqtt_wasi.Client.Waiting.{puback_loop}
use mqtt_wasi.Client.Acknowledged.{Arriving, message, acknowledged, puback_loop-Arriving}
use mqtt_wasi.Codec.Publish.Encode.{encode_puback}
use mqtt_wasi.Codec.Properties.{no_properties}
use mqtt_wasi.Io.{Io, IoResult, done}
use mqtt_wasi.Codec.Words.{Bytes}
use mqtt_wasi.Options.{ConnectOptions, new_options, validate}
use mqtt_wasi.Codec.Connect.Capabilities.{
  default_capabilities, validate_connack, from_connack, validate_publish,
  validate_subscription_filter,
}
use mqtt_wasi.Frame.{
  with_max_packet_size, mqtt_max_packet_size, try_decode, decode_state, remaining_capacity, push,
  decode_reading_header, enter_reading_body, decode_reading_body,
}
use mqtt_wasi.Codec.Types.{at_most_once, at_least_once}
use mqtt_wasi.Options.{PublishOptions, default_publish_options, with_qos}
use mqtt_wasi.Frame.Bounds.{IsBounded}
use mqtt_wasi.Client.Reading.{read_packet_until}
use mqtt_wasi.Client.Operations.{publish, subscribe, recv}
use mqtt_wasi.Client.Connected.{
  History, none_yet, then_call, receives, History-Evolves, connect_with-IsSound,
}
use mqtt_wasi.Client.Evolves.{IsSound, Evolves}
use mqtt_wasi.Client.Settled.Operations.{AfterError, publish-AfterError, subscribe-AfterError}
use mqtt_wasi.Client.Identifiers.{nth_packet_id, nth_packet_id-ne}
use mqtt_wasi.Client.Ending.{Clocked, read_packet_until-Ends}
use mqtt_wasi.Client.State.{MqttClient, validate_ack_code}
use mqtt_wasi.Client.Action.{◌>>=◌}
use mqtt_wasi.Client.Connecting.{connect_with}

record World : Type 0 where
  clock : ℕ
  reads : List (IoResult Bytes)
  written : List Bytes

abbrev next_read : List (IoResult Bytes) → World → IoResult Bytes × World
next_read [] w = (done [], w)
next_read (r ∷ rest) w = (r, record w { reads = rest })

abbrev replay : Io World
replay = record {
  now = λ w. (w.clock, record w { clock = suc w.clock });
  latest = 1_000_000_000_000_000;
  write = λ bytes w. (done (length bytes), record w { written = w.written ++ bytes ∷ [] });
  write_all = λ bytes w. (done tt, record w { written = w.written ++ bytes ∷ [] });
  flush = λ w. (done tt, w);
  read = λ len w. next_read w.reads (record w { clock = suc w.clock });
  set_nonblocking = λ on w. (done tt, w);
  set_read_timeout = λ duration w. (done tt, w);
  set_write_timeout = λ duration w. (done tt, w);
  shutdown = λ w. (done tt, w);
}

abbrev connack : Bytes
connack = 0x20 ∷ 3 ∷ 0 ∷ 0 ∷ 0 ∷ []

abbrev start : World
start = record { clock = 0; reads = done connack ∷ []; written = [] }

abbrev options : ConnectOptions
options = new_options (b'c' ∷ [])

-- the CONNECT packet that is sent
abbrev connect_bytes : Bytes
connect_bytes =
    0x10 ∷ 22 ∷ 0 ∷ 4 ∷ b'M' ∷ b'Q' ∷ b'T' ∷ b'T' ∷ 5 ∷ 2 ∷ 0 ∷ 60 ∷ 8 ∷ 39 ∷ 0 ∷ 16 ∷ 0 ∷ 0 ∷ 33
    ∷ 1 ∷ 0 ∷ 0 ∷ 1 ∷ b'c' ∷ []

abbrev finished : World
finished = record { clock = 9; reads = []; written = connect_bytes ∷ [] }

-- the client after the handshake
abbrev joined : MqttClient World
joined = record {
  stream = finished;
  frame_reader = with_max_packet_size 1_048_576;
  incoming = [];
  max_incoming_messages = 256;
  next_packet_id = 1;
  keep_alive_secs = 60;
  ack_timeout = 10_000_000_000;
  max_outbound_packet_size = mqtt_max_packet_size;
  server_capabilities = default_capabilities;
  last_read_at = 8;
  last_write_at = 3;
  ping_sent_at = none;
  connected = true;
}

connects : connect_with replay 3 options start ≡ (ok joined, finished)
unfolding connect_with ◌>>=◌ validate encode_connect connect_body encode_string encode_for
    encode_inner encode_entries encode_entry is_forbidden allows property_id_code validate_property
    same_id encode_variable_int encode_variable_int_loop encode_value encode_u16 encode_fixed_header
    validate_fixed_header try_decode decode_state remaining_capacity push decode_reading_header
    decode_fixed_header read_u8 packet_type_from_u8 read_variable_int variable_int_loop
    enter_reading_body decode_reading_body decode_packet decode_body decode_connack read_connack
    is_connack_reason_code decode_for decode_inner validate_connack from_connack get_byte get_u16
    get_u32 packet_type_code
connects = refl

-- a message that comes in while the client receives
one_call : History replay joined (recv replay 2 joined).1
one_call = then_call none_yet (receives 2)

connect_with-IsSound_example : (joined.connected ≡ true) × IsSound (recv replay 2 joined).1
connect_with-IsSound_example =
    connect_with-IsSound replay 3 options start finished joined (recv replay 2 joined).1 connects
      one_call

History-Evolves_example : Evolves joined (recv replay 2 joined).1
History-Evolves_example = History-Evolves replay one_call

abbrev topic : Bytes
topic = b't' ∷ []

abbrev acknowledged_options : PublishOptions
acknowledged_options = with_qos at_least_once default_publish_options

-- the client, where these bytes are read next
abbrev hearing : Bytes → MqttClient World
hearing bytes = record joined { stream = record finished { reads = done bytes ∷ [] } }

-- The broker refuses the message: its quota is used up.
abbrev refused : MqttClient World
refused = hearing (0x40 ∷ 3 ∷ 0 ∷ 1 ∷ 0x97 ∷ [])

publish-refused :
    (publish replay 3 topic topic acknowledged_options refused).0 ≡ err (ack_rejected "PUBACK" 0x97)
unfolding publish ◌>>=◌ validate_topic_name validate_publish qos_code encode_publish publish_body
    check_packet_id encode_string encode_for encode_inner encode_entries encode_variable_int
    encode_variable_int_loop encode_fixed_header publish_flags validate_fixed_header encode_u16
    try_decode decode_state remaining_capacity push decode_reading_header decode_fixed_header
    read_u8 packet_type_from_u8 read_variable_int variable_int_loop enter_reading_body
    decode_reading_body decode_packet decode_body decode_puback read_puback read_u16
    is_puback_reason_code skip_properties validate_ack_code
publish-refused = refl

publish-AfterError_example :
    AfterError refused.stream
      (ack_rejected "PUBACK" 0x97)
      (publish replay 3 topic topic acknowledged_options refused).1
publish-AfterError_example =
    publish-AfterError replay 3 refused (omega arith) (ack_rejected "PUBACK" 0x97) topic topic
      acknowledged_options publish-refused

abbrev unsubscribed : MqttClient World
unsubscribed = hearing (0x90 ∷ 4 ∷ 0 ∷ 1 ∷ 0 ∷ 0x87 ∷ [])

subscribe-refused :
    (subscribe replay 3 topic at_most_once unsubscribed).0 ≡ err (ack_rejected "SUBACK" 0x87)
unfolding subscribe ◌>>=◌ validate_subscription_filter validate_topic_filter validate_filter_levels
    is_shared encode_subscribe subscribe_body encode_for encode_inner encode_entries
    encode_variable_int encode_variable_int_loop encode_subscriptions encode_string
    encode_fixed_header validate_fixed_header encode_u16 try_decode decode_state remaining_capacity
    push decode_reading_header decode_fixed_header read_u8 packet_type_from_u8 read_variable_int
    variable_int_loop enter_reading_body decode_reading_body decode_packet decode_body decode_suback
    read_suback read_u16 decode_for decode_inner is_suback_reason_code validate_suback_codes
subscribe-refused = refl

subscribe-AfterError_example :
    AfterError unsubscribed.stream
      (ack_rejected "SUBACK" 0x87)
      (subscribe replay 3 topic at_most_once unsubscribed).1
subscribe-AfterError_example =
    subscribe-AfterError replay 3 unsubscribed (omega arith) (ack_rejected "SUBACK" 0x87) topic
      at_most_once subscribe-refused

nth_packet_id-ne_example : nth_packet_id 0 joined ≢ nth_packet_id 65534 joined
nth_packet_id-ne_example =
    nth_packet_id-ne 0 65534 joined (omega arith) (omega arith) (omega arith) (omega arith)

next_read_later :
    (reads : List (IoResult Bytes)) (w : World) → (next_read reads w).1.clock ≡ w.clock
next_read_later [] w = refl
next_read_later (r ∷ rest) w = refl

abbrev replay_clocked : Clocked replay
replay_clocked = record {
  clock = λ w. w.clock;
  now_reads = λ w. omega arith;
  now_later = λ w. omega arith;
  write_all_later = λ bytes w. omega arith;
  flush_later = λ w. omega arith;
  set_read_timeout_later = λ duration w. omega arith;
  read_advances =
      λ len w. omega (arith, next_read_later w.reads (record w { clock = suc w.clock }));
}

joined-IsBounded : IsBounded joined.frame_reader
joined-IsBounded = record { buffered = omega arith; declared = tt }

read_packet_until-Ends_example : Ends (read_packet_until replay 12 (some (20, "PUBACK")) joined).0
read_packet_until-Ends_example =
    read_packet_until-Ends replay replay_clocked 11 20 "PUBACK" joined joined-IsBounded
      (omega arith)

abbrev hello : PublishPacket
hello = record {
  topic = topic;
  packet_id = none;
  payload = 1 ∷ [];
  qos = at_most_once;
  retain = false;
  dup = false;
  properties = no_properties;
}

abbrev hello_frame : Bytes
hello_frame = 0x30 ∷ 5 ∷ 0 ∷ 1 ∷ b't' ∷ 0 ∷ 1 ∷ []

hello-written : encode_publish hello ≡ ok hello_frame
unfolding encode_publish publish_body check_packet_id validate_topic_name encode_string encode_for
    encode_inner encode_entries encode_variable_int encode_variable_int_loop encode_fixed_header
    publish_flags validate_fixed_header packet_type_code
hello-written = refl

abbrev first_ack : PubAckPacket
first_ack = record { packet_id = 1; reason_code = 0x00 }

abbrev first_ack_frame : Bytes
first_ack_frame = 0x40 ∷ 2 ∷ 0 ∷ 1 ∷ []

first_ack-written : encode_puback first_ack ≡ ok first_ack_frame
unfolding encode_puback is_puback_reason_code encode_fixed_header validate_fixed_header
    encode_variable_int encode_variable_int_loop encode_u16 packet_type_code
first_ack-written = refl

abbrev in_buffer : Bytes
in_buffer = hello_frame ++ first_ack_frame ++ []

hello-arrives : Arriving 1_048_576 1 0x00 1 (hello ∷ []) in_buffer
hello-arrives =
    message hello_frame hello
      (IsFrame-encode_publish hello (unfold is_utf8 in refl) tt (omega arith) hello-written) refl
      (omega arith)
      (acknowledged first_ack_frame [] (IsFrame-encode_puback first_ack first_ack-written)
        (omega arith))

abbrev waiting : MqttClient World
waiting = record joined { frame_reader = reader_at reading_header in_buffer 1_048_576 }

puback_loop-Arriving_example :
    ((puback_loop replay 2 (20, "PUBACK") 1 waiting).0 ≡ validate_ack_code "PUBACK" 0x00)
    × ((puback_loop replay 2 (20, "PUBACK") 1 waiting).1.incoming ≡ hello ∷ [])
puback_loop-Arriving_example =
    puback_loop-Arriving replay 1_048_576 2 1 1 0x00 (20, "PUBACK") (hello ∷ []) in_buffer waiting
      hello-arrives refl (omega arith) (omega arith) (omega arith)
