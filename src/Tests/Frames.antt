-- ===== src/Tests/Frames.antt =====
-- The frame reader's theorems at concrete byte streams.
use mqtt_wasi.Prelude.{◌≡◌, refl, none, some, List, [], ◌∷◌, ◌++◌, arith, inl}
use mqtt_wasi.Errors.{ok, Ends}
use mqtt_wasi.Codec.Words.{Bytes}
use mqtt_wasi.Codec.FixedHeader.{decode_fixed_header, validate_fixed_header}
use mqtt_wasi.Codec.Cursor.{read_variable_int}
use mqtt_wasi.Codec.Packets.{Packet}
use mqtt_wasi.Codec.Packet.{decode_packet}
use mqtt_wasi.Codec.Packet.Frames.{IsFrame}
use mqtt_wasi.Codec.Publish.{is_puback_reason_code}
use mqtt_wasi.Codec.Publish.AckRoundTrip.{IsFrame-encode_puback}
use mqtt_wasi.Codec.Ping.RoundTrip.{IsFrame-encode_disconnect}
use mqtt_wasi.Codec.Cursor.{read_u8, read_u16, ensure, variable_int_loop}
use mqtt_wasi.Codec.Types.{packet_type_from_u8}
use mqtt_wasi.Codec.Packet.{decode_body}
use mqtt_wasi.Codec.Publish.Decode.{decode_puback, read_puback}
use mqtt_wasi.Codec.Properties.Decode.{skip_properties}
use mqtt_wasi.Frame.{
  FrameState, reading_header, with_max_packet_size, push, remaining_capacity, try_decode,
  decode_state, decode_reading_header, enter_reading_body, decode_reading_body,
}
use mqtt_wasi.Frame.Reading.{reader_at, IsAwaiting, try_decode-whole, try_decode-part}
use mqtt_wasi.Frame.Stream.{drain, receive, feed, FitsCapacity, Sent}
use mqtt_wasi.Frame.InOrder.{feed-in_order}
use mqtt_wasi.Frame.Bounds.{IsBounded, try_decode-IsBounded, push-IsBounded}
use mqtt_wasi.Tests.{ack, ack-written, goodbye, goodbye-written}

abbrev ack_bytes : Bytes
ack_bytes = 0x40 ∷ 3 ∷ 0 ∷ 7 ∷ 0x10 ∷ []

ack-IsFrame : IsFrame ack_bytes (Packet.pub_ack ack)
ack-IsFrame = IsFrame-encode_puback ack ack-written

abbrev two_sent : List Sent
two_sent =
    record {
      frame = ack_bytes;
      packet = Packet.pub_ack ack;
      whole = IsFrame-encode_puback ack ack-written;
    }
    ∷ record {
      frame = 0xE0 ∷ 1 ∷ 0x04 ∷ [];
      packet = Packet.disconnect goodbye;
      whole = IsFrame-encode_disconnect goodbye goodbye-written;
    }
    ∷ []

-- The first chunk ends within the first header, the second within the second one.
abbrev three_chunks : List Bytes
three_chunks = (0x40 ∷ []) ∷ (3 ∷ 0 ∷ 7 ∷ 0x10 ∷ 0xE0 ∷ []) ∷ (1 ∷ 0x04 ∷ []) ∷ []

chunks-FitsCapacity : FitsCapacity three_chunks (with_max_packet_size 16)
unfolding FitsCapacity receive drain push remaining_capacity try_decode decode_state
    decode_reading_header decode_fixed_header read_u8 ensure read_variable_int variable_int_loop
    packet_type_from_u8 validate_fixed_header enter_reading_body decode_reading_body decode_packet
    decode_body decode_puback read_puback read_u16 is_puback_reason_code skip_properties
chunks-FitsCapacity = (omega arith, (omega arith, (omega arith, tt)))

feed-in_order_example :
    feed three_chunks (with_max_packet_size 16)
    ≡ ok (Packet.pub_ack ack ∷ Packet.disconnect goodbye ∷ [])
feed-in_order_example =
    feed-in_order 16 three_chunks two_sent (omega arith) (omega arith, (omega arith, tt)) refl
      chunks-FitsCapacity

try_decode-whole_example :
    try_decode (reader_at reading_header (ack_bytes ++ 0xE0 ∷ []) 16)
    ≡ (ok (some (Packet.pub_ack ack)), reader_at reading_header (0xE0 ∷ []) 16)
try_decode-whole_example =
    try_decode-whole ack_bytes (Packet.pub_ack ack) ack-IsFrame 16 (omega arith) (omega arith)
      reading_header (0xE0 ∷ []) (inl refl)

try_decode-part_example :
    (state : FrameState) × (try_decode (reader_at reading_header (0x40 ∷ []) 16)
      ≡ (ok none, reader_at state (0x40 ∷ []) 16))
    × IsAwaiting ack_bytes (Packet.pub_ack ack) ack-IsFrame state
try_decode-part_example =
    try_decode-part ack_bytes (Packet.pub_ack ack) ack-IsFrame 16 (omega arith) (omega arith)
      reading_header (0x40 ∷ []) 3 (0 ∷ 7 ∷ 0x10 ∷ []) (inl refl) refl

empty-IsBounded : IsBounded (with_max_packet_size 16)
empty-IsBounded = record { buffered = omega arith; declared = tt }

try_decode-IsBounded_example :
    IsBounded (try_decode (with_max_packet_size 16)).1
    × ((try_decode (with_max_packet_size 16)).1.max_packet_size ≡ 16)
    × Ends (try_decode (with_max_packet_size 16)).0
try_decode-IsBounded_example = try_decode-IsBounded (with_max_packet_size 16) empty-IsBounded

push-IsBounded_example : IsBounded (push ack_bytes (with_max_packet_size 16))
push-IsBounded_example = push-IsBounded ack_bytes (with_max_packet_size 16) empty-IsBounded
