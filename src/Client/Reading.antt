-- ===== src/Client/Reading.antt =====
-- src/client.rs: the timers, and the loop that reads one packet.
use mqtt_wasi.Prelude.{
  ℕ, zero, suc, ◌-◌, min, Bool, true, false, String, Option, none, some, [], ◌∷◌, leb, ◌==◌,
  if◌then◌else◌,
}
use mqtt_wasi.Errors.{
  ErrorKind, interrupted, Error, ok, err, timeout, keep_alive_timeout, packet_too_large,
  connection_closed, out_of_fuel,
}
use mqtt_wasi.Io.{Io, IoResult, done, failed, instant_add, from_millis}
use mqtt_wasi.Codec.Words.{Bytes, saturating_add}
use mqtt_wasi.Codec.Ping.{pingreq_bytes}
use mqtt_wasi.Codec.Packets.{Packet}
use mqtt_wasi.Frame.{try_decode, remaining_capacity, push}
use mqtt_wasi.Client.State.{MqttClient, Deadline, ping_interval, is_timeout}
use mqtt_wasi.Client.Action.{
  Act, ◌>>=◌, ◌>>◌, done_with, raise, reads, sets, close_on, close_with, or_close, call, now,
}
use mqtt_wasi.Client.Sending.{send_encoded}

abbrev pub is_due : Option Deadline → ℕ → Bool
is_due none at = false
is_due (some (deadline, operation)) at = leb deadline at

abbrev pub operation_of : Option Deadline → String
operation_of none = ""
operation_of (some (deadline, operation)) = operation

-- the pattern `Error::Timeout(_)`
abbrev pub is_timeout_error : Error → Bool
is_timeout_error (timeout operation) = true
is_timeout_error _ = false

-- the earlier of the deadline and the timer
abbrev pub earlier : Option Deadline → Option ℕ → Option ℕ
earlier none timer = timer
earlier (some (deadline, operation)) none = some deadline
earlier (some (deadline, operation)) (some timer) = some (min deadline timer)

abbrev pub at_least_a_milli : ℕ → ℕ
at_least_a_milli duration = if leb (from_millis 1) duration then duration else from_millis 1

abbrev pub until : ℕ → Option ℕ → Option ℕ
until at none = none
until at (some wake_at) = some (at_least_a_milli (wake_at - at))

module _ {W : Type 0} where
  abbrev pub decode_next : Act W (Option Packet)
  decode_next c =
      let (r, reader) = try_decode c.frame_reader in or_close r (record c { frame_reader = reader })

  abbrev pub forget_ping : Packet → MqttClient W → MqttClient W
  forget_ping Packet.ping_resp c = record c { ping_sent_at = none }
  forget_ping _ c = c

  abbrev pub on_read_error : ErrorKind → Act W (Unit {0})
  on_read_error interrupted = done_with tt
  on_read_error kind = if is_timeout kind then done_with tt else close_with (Error.io kind)

  abbrev pub or_close_io : IoResult (Unit {0}) → Act W (Unit {0})
  or_close_io (done u) = done_with tt
  or_close_io (failed kind) = close_with (Error.io kind)

module _ {W : Type 0} (io : Io W) where
  abbrev pub send_ping : Act W (Unit {0})
  send_ping = do
    send_encoded io pingreq_bytes "keepalive"
    sent_at ← now io
    sets λ c. record c { ping_sent_at = some sent_at }

  -- the keep-alive without an outstanding PINGREQ
  abbrev pub ping_when : Option ℕ → ℕ → Act W (Unit {0})
  ping_when none at c = (ok tt, c)
  ping_when (some interval) at c =
      if leb interval (at - c.last_write_at) then send_ping c else (ok tt, c)

  abbrev pub serve_keep_alive : Option ℕ → ℕ → Act W (Unit {0})
  serve_keep_alive none at c = ping_when (ping_interval c.keep_alive_secs) at c
  serve_keep_alive (some sent_at) at c =
      if leb c.ack_timeout (at - sent_at) then close_with keep_alive_timeout c else (ok tt, c)

  abbrev pub service_at : Option Deadline → ℕ → Act W (Unit {0})
  service_at deadline at c =
      if is_due deadline at
      then (err (timeout (operation_of deadline)), c)
      else if c.connected
      then serve_keep_alive c.ping_sent_at at c
      else (ok tt, c)

  unfoldable pub service_timers : Option Deadline → Act W (Unit {0})
  unfolding ping_interval send_encoded
  service_timers deadline = do at ← now io; service_at deadline at

  abbrev pub instant_after : Option ℕ → ℕ → Option ℕ
  instant_after none at = none
  instant_after (some duration) at = instant_add io.latest at duration

  abbrev pub timer_at : Option ℕ → MqttClient W → Option ℕ
  timer_at (some sent_at) c = instant_add io.latest sent_at c.ack_timeout
  timer_at none c = instant_after (ping_interval c.keep_alive_secs) c.last_write_at

  unfoldable pub next_read_timeout : Option Deadline → Act W (Option ℕ)
  unfolding ping_interval
  next_read_timeout deadline = do
    at ← now io
    reads λ c. until at (earlier deadline (if c.connected then timer_at c.ping_sent_at c else none))

  abbrev pub on_packet : Packet → Act W Packet
  on_packet packet = do
    at ← now io
    sets (λ c. record c { last_read_at = at })
    sets (forget_ping packet)
    done_with packet

  abbrev pub on_read : IoResult Bytes → Act W (Unit {0})
  on_read (done []) = close_with connection_closed
  on_read (done (b ∷ bytes)) = do
    at ← now io
    sets (λ c. record c { last_read_at = at; frame_reader = push (b ∷ bytes) c.frame_reader })
  on_read (failed kind) = on_read_error kind

  -- the read, which is not tried without room in the reader
  abbrev pub read_some : Act W (Unit {0})
  read_some c =
      let capacity = remaining_capacity c.frame_reader in
      let max = c.frame_reader.max_packet_size in
      if capacity == 0
      then close_with (packet_too_large (saturating_add max 1) max) c
      else (call (io.read (min capacity 8192)) >>= on_read) c

  abbrev pub wait_and_read : Option Deadline → Act W (Unit {0})
  wait_and_read deadline = do
    wait ← next_read_timeout deadline
    set ← call (io.set_read_timeout wait)
    or_close_io set
    read_some

  -- what a round of the loop does when no packet is whole
  unfoldable pub read_chunk : Option Deadline → Act W (Unit {0})
  unfolding service_timers next_read_timeout
  read_chunk deadline = do service_timers deadline; wait_and_read deadline

  abbrev pub decoded_or : Act W Packet → Option Packet → Act W Packet
  decoded_or more none = more
  decoded_or more (some packet) = on_packet packet

  -- The loop, with fuel for its rounds.
  unfoldable pub read_packet_until : ℕ → Option Deadline → Act W Packet
  unfolding read_chunk
  read_packet_until zero deadline = raise out_of_fuel
  read_packet_until (suc fuel) deadline = do
    decoded ← decode_next
    decoded_or (do read_chunk deadline; read_packet_until fuel deadline) decoded

  unfoldable pub read_ack_packet : ℕ → Deadline → Act W Packet
  unfolding read_packet_until
  read_ack_packet fuel deadline c =
      close_on is_timeout_error (read_packet_until fuel (some deadline) c)
