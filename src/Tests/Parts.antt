-- ===== src/Tests/Parts.antt =====
-- Tests and examples of the trace context, the options, the transport's default method and the
-- identifiers of messages.
use mqtt_wasi.Codec.Properties.Decode.{decode_for, decode_inner}
use mqtt_wasi.Codec.Topic.{validate_topic_name}
use mqtt_wasi.Codec.Utf8.{is_utf8}
use mqtt_wasi.Codec.Cursor.{
  read_string, read_u16, read_bytes, read_variable_int, variable_int_loop, read_u8,
}
use mqtt_wasi.Codec.Publish.Decode.{decode_publish, read_publish, read_packet_id}
use mqtt_wasi.Codec.FixedHeader.{validate_fixed_header}
use mqtt_wasi.Prelude.{
  ℕ, ◌≡◌, ◌↔◌, refl, false, some, [], ◌∷◌, ◌++◌, arith, length, take, length-take,
}
use mqtt_wasi.Errors.{ok, Ends}
use mqtt_wasi.Io.{IoResult, done}
use mqtt_wasi.Codec.Words.{Bytes}
use mqtt_wasi.Codec.Properties.{no_properties}
use mqtt_wasi.Codec.Types.{PacketType, FixedHeader, at_least_once, qos_from_u8}
use mqtt_wasi.Codec.Packets.{Packet, PublishPacket}
use mqtt_wasi.Codec.Packet.{decode_packet, decode_body}
use mqtt_wasi.Codec.Publish.Identified.{IsIdentified, decode_packet-IsIdentified}
use mqtt_wasi.Trace.{TraceContext, from_properties, inject, traceparent_string}
use mqtt_wasi.Trace.RoundTrip.{
  IsContext, from_properties-inject, parse_traceparent-traceparent_string,
}
use mqtt_wasi.Trace.Valid.{parse_traceparent-IsContext}
use mqtt_wasi.Options.{new_options, validate}
use mqtt_wasi.Options.Valid.{IsUsable, validate_iff}
use mqtt_wasi.Transport.{write_all}
use mqtt_wasi.Transport.Whole.{Logs, write_all-Written, write_all-Ends}

abbrev context : TraceContext
context = record {
  trace_id =
      0x4B ∷ 0xF9 ∷ 0x2F ∷ 0x35 ∷ 0x77 ∷ 0xB6 ∷ 0xA2 ∷ 0x7B ∷ 0xC4 ∷ 0xC9 ∷ 0x89 ∷ 0xD3 ∷ 0x5B
      ∷ 0x8E ∷ 0x4F ∷ 0x36 ∷ [];
  span_id = 0x00 ∷ 0xF0 ∷ 0x67 ∷ 0xAA ∷ 0x0B ∷ 0xA9 ∷ 0x02 ∷ 0xB7 ∷ [];
  trace_flags = 0x01;
  tracestate = some (b'k' ∷ b'=' ∷ b'v' ∷ []);
}

context-IsContext : IsContext context
context-IsContext = record {
  trace_size = refl;
  trace_bytes = ground arith;
  span_size = refl;
  span_bytes = ground arith;
  flags_byte = omega arith;
  trace_nonzero = refl;
  span_nonzero = refl;
}

from_properties-inject_example : from_properties (inject context no_properties) ≡ some context
from_properties-inject_example = from_properties-inject context no_properties context-IsContext

parse_traceparent-IsContext_example : IsContext context
parse_traceparent-IsContext_example =
    parse_traceparent-IsContext (traceparent_string context) context.tracestate context
      (parse_traceparent-traceparent_string context context.tracestate context-IsContext)

validate_iff_example :
    (validate 1_000_000_000_000 5 (new_options []) ≡ ok tt)
    ↔ IsUsable 1_000_000_000_000 5 (new_options [])
validate_iff_example = validate_iff 1_000_000_000_000 5 (new_options [])

-- A transport that takes at most two bytes at a time.
abbrev pub write_two : Bytes → Bytes → IoResult ℕ × Bytes
write_two buf sent = (done (length (take 2 buf)), sent ++ take 2 buf)

abbrev pub write_two_logs : Logs write_two
write_two_logs = record {
  log = λ sent. sent;
  hands = λ buf sent. (omega (arith, length-take 2 buf), taken buf sent);
}
  where
    taken : (buf sent : Bytes) → sent ++ take 2 buf ≡ sent ++ take (length (take 2 buf)) buf
    taken [] sent = refl
    taken (a ∷ []) sent = refl
    taken (a ∷ b ∷ buf) sent = refl

write_all-Written_example :
    (write_all write_two 4 (1 ∷ 2 ∷ 3 ∷ 4 ∷ 5 ∷ []) []).1 ≡ 1 ∷ 2 ∷ 3 ∷ 4 ∷ 5 ∷ []
unfolding write_all
write_all-Written_example = write_all-Written write_two write_two_logs 4 (1 ∷ 2 ∷ 3 ∷ 4 ∷ 5 ∷ []) []

write_all-Ends_example : Ends (write_all write_two 6 (1 ∷ 2 ∷ 3 ∷ 4 ∷ 5 ∷ []) []).0
write_all-Ends_example =
    write_all-Ends write_two (λ buf sent e. cc) 6 (1 ∷ 2 ∷ 3 ∷ 4 ∷ 5 ∷ []) [] (omega arith)

abbrev publish_header : FixedHeader
publish_header = record { packet_type = PacketType.publish; flags = 0x02; remaining_length = 7 }

abbrev arrived : PublishPacket
arrived = record {
  topic = b't' ∷ [];
  packet_id = some 5;
  payload = 9 ∷ [];
  qos = at_least_once;
  retain = false;
  dup = false;
  properties = no_properties;
}

abbrev arrived_body : Bytes
arrived_body = 0 ∷ 1 ∷ b't' ∷ 0 ∷ 5 ∷ 0 ∷ 9 ∷ []

arrived-read : decode_packet publish_header arrived_body ≡ ok (Packet.publish arrived)
unfolding decode_packet validate_fixed_header decode_body decode_publish read_publish qos_from_u8
    read_string read_u16 read_bytes is_utf8 validate_topic_name read_packet_id decode_for
    decode_inner read_variable_int variable_int_loop read_u8
arrived-read = refl

decode_packet-IsIdentified_example : IsIdentified (Packet.publish arrived)
decode_packet-IsIdentified_example =
    decode_packet-IsIdentified publish_header arrived_body (Packet.publish arrived) arrived-read
