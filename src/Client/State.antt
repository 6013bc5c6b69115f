-- ===== src/Client/State.antt =====
-- src/client.rs: `MqttClient`, and the functions that do not touch it.
use mqtt_wasi.Prelude.{
  ℕ, String, Bool, Option, none, some, List, [], ◌∷◌, not, ◌==◌, leb, if◌then◌else◌, length,
}
use mqtt_wasi.Errors.{
  ErrorKind, timed_out, would_block, Result, ok, err, ◌>>◌, fail_if, io, timeout, ack_rejected,
  malformed_packet,
}
use mqtt_wasi.Codec.Connect.Capabilities.{ServerCapabilities}
use mqtt_wasi.Codec.Packets.{PublishPacket}
use mqtt_wasi.Frame.{FrameReader}
use mqtt_wasi.Io.{IoResult, done, failed, from_secs}

-- The transport's state stands in the field `stream`.
pub record MqttClient (W : Type 0) : Type 0 where
  pub stream : W
  pub frame_reader : FrameReader
  pub incoming : List PublishPacket
  pub max_incoming_messages : ℕ
  pub next_packet_id : ℕ
  pub keep_alive_secs : ℕ
  pub ack_timeout : ℕ
  pub max_outbound_packet_size : ℕ
  pub server_capabilities : ServerCapabilities
  pub last_read_at : ℕ
  pub last_write_at : ℕ
  pub ping_sent_at : Option ℕ
  pub connected : Bool

abbrev pub Deadline : Type 0
Deadline = ℕ × String

unfoldable pub ping_interval : ℕ → Option ℕ
ping_interval keep_alive_secs =
    if not (keep_alive_secs == 0) then some (from_secs keep_alive_secs) else none

unfoldable pub validate_ack_code : String → ℕ → Result (Unit {0})
validate_ack_code packet reason_code =
    if leb 0x80 reason_code then err (ack_rejected packet reason_code) else ok tt

-- `reason_codes.iter().try_for_each(...)`
unfoldable pub each_ack_code : String → List ℕ → Result (Unit {0})
unfolding validate_ack_code
each_ack_code packet [] = ok tt
each_ack_code packet (code ∷ codes) = do validate_ack_code packet code; each_ack_code packet codes

unfoldable pub validate_ack_codes : String → List ℕ → ℕ → Result (Unit {0})
unfolding each_ack_code
validate_ack_codes packet reason_codes expected = do
  fail_if (not (length reason_codes == expected))
      (malformed_packet "ack reason code count mismatch")
  each_ack_code packet reason_codes

-- the kinds `TimedOut` and `WouldBlock`
abbrev pub is_timeout : ErrorKind → Bool
is_timeout timed_out = Bool.true
is_timeout would_block = Bool.true
is_timeout _ = Bool.false

unfoldable pub map_write_result : IoResult (Unit {0}) → String → Result (Unit {0})
map_write_result (done u) operation = ok tt
map_write_result (failed kind) operation =
    if is_timeout kind then err (timeout operation) else err (io kind)
