-- ===== src/Client/Connecting.antt =====
-- src/client.rs: the connection: the sockets of `connect_tcp`, and the handshake of `connect_with`.
use mqtt_wasi.Prelude.{
  ℕ, ◌-◌, min, true, false, not, Option, none, some, List, [], ◌∷◌, leb, ◌==◌, if◌then◌else◌,
}
use mqtt_wasi.Errors.{
  ErrorKind, timed_out, connection_refused, invalid_input, Error, Result, ok, err, fail_if,
  invalid_options, unexpected_packet, malformed_packet, timeout,
}
use mqtt_wasi.Io.{Io, IoResult, done, failed, io_error}
use mqtt_wasi.Codec.Words.{Bytes, u32_mod, u16_mod}
use mqtt_wasi.Codec.Properties.{
  no_properties, push, get_u16, get_u32, u16, u32, maximum_packet_size, receive_maximum,
  server_keep_alive,
}
use mqtt_wasi.Codec.Packets.{Packet, ConnectPacket, ConnAckPacket}
use mqtt_wasi.Codec.Connect.Capabilities.{
  ServerCapabilities, validate_connack, from_connack, default_capabilities,
}
use mqtt_wasi.Codec.Connect.Encode.{encode_connect}
use mqtt_wasi.Frame.{with_max_packet_size, mqtt_max_packet_size}
use mqtt_wasi.Options.{ConnectOptions, validate}
use mqtt_wasi.Client.State.{MqttClient, Deadline}
use mqtt_wasi.Client.Action.{
  Does, Act, ◌>>=◌, ◌>>◌, lift, done_with, raise, calls, reads, sets, through, io_call,
  deadline_after,
}
use mqtt_wasi.Client.Sending.{send_encoded}
use mqtt_wasi.Client.Reading.{read_packet_until}

abbrev pub new_client : {W : Type 0} → ConnectOptions → ℕ → W → MqttClient W
new_client options now stream = record {
  stream = stream;
  frame_reader = with_max_packet_size options.max_packet_size;
  incoming = [];
  max_incoming_messages = options.max_incoming_messages;
  next_packet_id = 1;
  keep_alive_secs = options.keep_alive_secs;
  ack_timeout = options.ack_timeout;
  max_outbound_packet_size = mqtt_max_packet_size;
  server_capabilities = default_capabilities;
  last_read_at = now;
  last_write_at = now;
  ping_sent_at = none;
  connected = false;
}

abbrev pub connect_packet : ConnectOptions → ConnectPacket
connect_packet options = record {
  protocol_version = 5;
  clean_start = options.clean_start;
  keep_alive = options.keep_alive_secs;
  client_id = options.client_id;
  username = options.username;
  password = options.password;
  properties =
      push receive_maximum (u16 (min options.max_incoming_messages (u16_mod - 1)))
        (push maximum_packet_size (u32 options.max_packet_size) no_properties);
}

abbrev pub expect_connack : {W : Type 0} → Packet → Act W ConnAckPacket
expect_connack (Packet.conn_ack ack) = done_with ack
expect_connack _ = raise (unexpected_packet "expected CONNACK")

module _ {W : Type 0} where
  -- `none` is the panic of `from_connack`, which no CONNACK that was decoded reaches
  abbrev pub set_capabilities : Option ServerCapabilities → Act W (Unit {0})
  set_capabilities none = raise (malformed_packet "unreachable")
  set_capabilities (some capabilities) = sets λ c. record c { server_capabilities = capabilities }

  abbrev pub set_keep_alive : Option ℕ → Act W (Unit {0})
  set_keep_alive none = done_with tt
  set_keep_alive (some secs) = sets λ c. record c { keep_alive_secs = secs }

  abbrev pub set_outbound : Option ℕ → Act W (Unit {0})
  set_outbound none = done_with tt
  set_outbound (some max) = do
    lift (fail_if (max == 0) (malformed_packet "server maximum packet size must be non-zero"))
    sets λ c. record c { max_outbound_packet_size = max }

  -- what the CONNACK settles
  unfoldable pub negotiate : ConnectOptions → ConnAckPacket → Act W (Unit {0})
  negotiate options ack = do
    lift (fail_if (not (ack.reason_code == 0x00)) (Error.connection_refused ack.reason_code))
    lift (validate_connack options.client_id options.clean_start ack)
    set_capabilities (from_connack ack)
    set_keep_alive (get_u16 server_keep_alive ack.properties)
    set_outbound (get_u32 maximum_packet_size ack.properties)

  abbrev pub with_client : Result (Unit {0}) × MqttClient W → Result (MqttClient W) × W
  with_client (ok u, c) = (ok c, c.stream)
  with_client (err e, c) = (err e, c.stream)

module _ {W : Type 0} (io : Io W) where
  -- the handshake's messages, on the new client
  unfoldable pub handshake : ℕ → ConnectOptions → Deadline → Act W (Unit {0})
  unfolding send_encoded read_packet_until negotiate
  handshake fuel options deadline = do
    lift (
        fail_if (leb u32_mod options.max_packet_size)
          (invalid_options "maximum packet size exceeds u32"))
    bytes ← lift (encode_connect (connect_packet options))
    send_encoded io bytes "connect"
    packet ← read_packet_until io fuel (some deadline)
    ack ← expect_connack packet
    negotiate options ack
    sets λ c. record c { connected = true }
    through (io_call (io.set_read_timeout none))
    ack_timeout ← reads λ c. c.ack_timeout
    through (io_call (io.set_write_timeout (some ack_timeout)))

  abbrev pub checked : ConnectOptions → Does W (Unit {0})
  checked options = do at ← calls io.now; lift (validate io.latest at options)

  unfoldable pub connect_with : ℕ → ConnectOptions → Does W (MqttClient W)
  unfolding deadline_after handshake
  connect_with fuel options = do
    checked options
    deadline ← deadline_after io options.connect_timeout "connect"
    io_call (io.set_nonblocking false)
    io_call (io.set_read_timeout (some options.connect_timeout))
    io_call (io.set_write_timeout (some options.connect_timeout))
    at ← calls io.now
    λ stream. with_client (handshake fuel options deadline (new_client options at stream))

-- Sockets of std::net: the addresses that a name resolves to, and a connection to one of them with
-- a time limit.
pub record Net (W Addr : Type 0) : Type 0 where
  pub to_socket_addrs : Bytes → W → IoResult (List Addr) × W
  pub connect_timeout : Addr → ℕ → W → IoResult (Unit {0}) × W

module _ {W Addr : Type 0} (io : Io W) (net : Net W Addr) where
  abbrev pub kind_or : ErrorKind → Option ErrorKind → ErrorKind
  kind_or kind none = kind
  kind_or kind (some last) = last

  abbrev pub dialled :
      (ErrorKind → W → IoResult (Unit {0}) × W) → IoResult (Unit {0}) × W → IoResult (Unit {0}) × W
  dialled more (done u, w) = (done u, w)
  dialled more (failed kind, w) = more kind w

  -- one address, before the deadline
  abbrev pub dial :
      ℕ → Addr → (ErrorKind → W → IoResult (Unit {0}) × W) → ℕ × W → IoResult (Unit {0}) × W
  dial deadline addr more (at, w) =
      if leb deadline at
      then (failed timed_out, w)
      else dialled more (net.connect_timeout addr (deadline - at) w)

  -- The loop over the addresses, with the last error.
  unfoldable pub dial_all : ℕ → List Addr → Option ErrorKind → W → IoResult (Unit {0}) × W
  dial_all deadline [] last_error w = (failed (kind_or connection_refused last_error), w)
  dial_all deadline (addr ∷ addrs) last_error w =
      dial deadline addr (λ kind. dial_all deadline addrs (some kind)) (io.now w)

  abbrev pub resolved : ℕ → IoResult (List Addr) × W → IoResult (Unit {0}) × W
  resolved deadline (failed kind, w) = (failed kind, w)
  resolved deadline (done [], w) = (failed invalid_input, w)
  resolved deadline (done (addr ∷ addrs), w) = dial_all deadline (addr ∷ addrs) none w

  unfoldable pub connect_tcp : Bytes → ℕ → W → IoResult (Unit {0}) × W
  unfolding dial_all
  connect_tcp addr deadline w = resolved deadline (net.to_socket_addrs addr w)

  abbrev pub tcp_result : IoResult (Unit {0}) → Result (Unit {0})
  tcp_result (failed timed_out) = err (timeout "connect")
  tcp_result r = io_error r

  -- what is left of the connect timeout
  abbrev pub time_left : ConnectOptions → ℕ → ℕ → Result ConnectOptions
  time_left options deadline at =
      if leb deadline at
      then err (timeout "connect")
      else ok (record options { connect_timeout = deadline - at })

  unfoldable pub connect : ℕ → Bytes → ConnectOptions → Does W (MqttClient W)
  unfolding deadline_after connect_tcp connect_with
  connect fuel addr options = do
    checked io options
    (deadline, operation) ← deadline_after io options.connect_timeout "connect"
    stream ← calls (connect_tcp addr deadline)
    lift (tcp_result stream)
    at ← calls io.now
    remaining_options ← lift (time_left options deadline at)
    connect_with io fuel remaining_options
