-- ===== src/Frame.antt =====
-- src/frame.rs: `FrameReader`, the incremental parser of packets. A `&mut self` method returns the
-- reader that it leaves behind, on errors too.
pub mod Reading
pub mod Bounds
pub mod Stream
pub mod InOrder
pub mod Gives
use mqtt_wasi.Prelude.{
  ℕ, ◌+◌, ◌-◌, Bool, true, false, Option, none, some, [], ◌++◌, ltb, if◌then◌else◌, length, take,
  drop, is_empty,
}
use text.Mathlib.Text.{◌==◌ as same_string}
use mqtt_wasi.Errors.{Error, Result, ok, err, malformed_packet, packet_too_large}
use mqtt_wasi.Codec.Words.{Bytes, checked_add, saturating_add}
use mqtt_wasi.Codec.Types.{FixedHeader}
use mqtt_wasi.Codec.FixedHeader.{decode_fixed_header}
use mqtt_wasi.Codec.Packets.{Packet}
use mqtt_wasi.Codec.Packet.{decode_packet}

abbrev pub mqtt_max_packet_size : ℕ
mqtt_max_packet_size = 268_435_460

pub data FrameState : Type 0 where
  reading_header : FrameState
  reading_body : (header : FixedHeader) (header_len total_len : ℕ) → FrameState

pub record FrameReader : Type 0 where
  pub buf : Bytes
  pub state : FrameState
  pub max_packet_size : ℕ
  pub overflow_size : Option ℕ

abbrev pub with_max_packet_size : ℕ → FrameReader
with_max_packet_size max = record {
  buf = [];
  state = reading_header;
  max_packet_size = max;
  overflow_size = none;
}

abbrev pub new_reader : FrameReader
new_reader = with_max_packet_size mqtt_max_packet_size

abbrev target : FrameState → ℕ → ℕ
target reading_header max = max
target (reading_body header header_len total_len) max = total_len

unfoldable pub remaining_capacity : FrameReader → ℕ
remaining_capacity reader = target reader.state reader.max_packet_size - length reader.buf

unfoldable pub push : Bytes → FrameReader → FrameReader
unfolding remaining_capacity
push bytes reader =
    let available = remaining_capacity reader in
    let buf = reader.buf ++ take available bytes in
    if ltb available (length bytes)
    then record reader {
      buf = buf;
      overflow_size = some (saturating_add (length buf) (length bytes - available));
    }
    else record reader { buf = reader.buf ++ bytes }

abbrev Step : Type 0
Step = Result (Option Packet) × FrameReader

-- the arm of `FrameState::ReadingBody`
unfoldable pub decode_reading_body : FixedHeader → ℕ → ℕ → FrameReader → Step
decode_reading_body header header_len total_len reader =
    if ltb (length reader.buf) total_len
    then (ok none, reader)
    else elim (decode_packet header (take (total_len - header_len) (drop header_len reader.buf))) [
      | err e ↦ (err e, reader)
      | ok packet ↦ (
        ok (some packet),
        record reader { buf = drop total_len reader.buf; state = reading_header },
      )
    ]

-- what follows a header that was decoded, and the next round of the loop
unfoldable pub enter_reading_body : FixedHeader → ℕ → Option ℕ → FrameReader → Step
enter_reading_body header header_len none reader =
    (err (malformed_packet "packet length overflow"), reader)
enter_reading_body header header_len (some total_len) reader =
    if ltb reader.max_packet_size total_len
    then (err (packet_too_large total_len reader.max_packet_size), reader)
    else decode_reading_body header header_len total_len
        (record reader { state = reading_body header header_len total_len })

-- the pattern `Error::MalformedPacket("unexpected end of data")`
abbrev pub is_end_of_data : Error → Bool
is_end_of_data (malformed_packet why) = same_string why "unexpected end of data"
is_end_of_data _ = false

-- the arm of `FrameState::ReadingHeader`, on what `decode_fixed_header` gave
unfoldable pub decode_reading_header : Result (FixedHeader × ℕ) → FrameReader → Step
decode_reading_header (ok (header, header_len)) reader =
    enter_reading_body header header_len (checked_add header_len header.remaining_length) reader
decode_reading_header (err e) reader =
    if is_end_of_data e then (ok none, reader) else (err e, reader)

-- The loop: its first round may enter `ReadingBody`, whose round is the last.
unfoldable pub decode_state : FrameState → FrameReader → Step
decode_state reading_header reader =
    if is_empty reader.buf
    then (ok none, reader)
    else decode_reading_header (decode_fixed_header reader.buf) reader
decode_state (reading_body header header_len total_len) reader =
    decode_reading_body header header_len total_len reader

-- `if let Some(size) = self.overflow_size { return Err(...) }`, and the loop behind it
abbrev pub unless_overflowed : Option ℕ → FrameReader → Step
unless_overflowed (some size) reader = (err (packet_too_large size reader.max_packet_size), reader)
unless_overflowed none reader = decode_state reader.state reader

unfoldable pub try_decode : FrameReader → Step
try_decode reader = unless_overflowed reader.overflow_size reader
