-- ===== src/Trace.antt =====
-- src/trace.rs: the W3C trace context in the user properties of a message. A `String` is its bytes.
pub mod Hex
pub mod Dashes
pub mod RoundTrip
pub mod Valid
use mqtt_wasi.Prelude.{
  ℕ, zero, suc, ◌+◌, ◌-◌, ◌*◌, ◌/◌, ◌%◌, Bool, true, false, not, ◌&&◌, ◌||◌, Option, none, some,
  List, [], ◌∷◌, ◌++◌, bit_and, bit_or, leb, ◌==◌, if◌then◌else◌, length, all, get_or,
}
use mqtt_wasi.Codec.Words.{Bytes, same_bytes}
use mqtt_wasi.Codec.Topic.{grow}
use mqtt_wasi.Codec.Properties.{Properties, push, user_property, string_pair, user_properties}

abbrev pub traceparent_key : Bytes
traceparent_key = b't' ∷ b'r' ∷ b'a' ∷ b'c' ∷ b'e' ∷ b'p' ∷ b'a' ∷ b'r' ∷ b'e' ∷ b'n' ∷ b't' ∷ []

abbrev pub tracestate_key : Bytes
tracestate_key = b't' ∷ b'r' ∷ b'a' ∷ b'c' ∷ b'e' ∷ b's' ∷ b't' ∷ b'a' ∷ b't' ∷ b'e' ∷ []

abbrev pub version : Bytes
version = b'0' ∷ b'0' ∷ []

abbrev pub dash : ℕ
dash = b'-'

pub record TraceContext : Type 0 where
  pub trace_id : Bytes
  pub span_id : Bytes
  pub trace_flags : ℕ
  pub tracestate : Option Bytes

abbrev pub is_all_zero : Bytes → Bool
is_all_zero bytes = all (λ byte. byte == 0) bytes

unfoldable pub new_root : Bytes → Bytes → Option TraceContext
new_root trace_id span_id =
    if is_all_zero trace_id || is_all_zero span_id
    then none
    else some
        (record { trace_id = trace_id; span_id = span_id; trace_flags = 0x01; tracestate = none })

unfoldable pub child : TraceContext → Bytes → Option TraceContext
child context span_id =
    if is_all_zero span_id then none else some (record context { span_id = span_id })

-- `HEX[n]`
abbrev pub hex_digit : ℕ → ℕ
hex_digit n =
    get_or
      (b'0' ∷ b'1' ∷ b'2' ∷ b'3' ∷ b'4' ∷ b'5' ∷ b'6' ∷ b'7' ∷ b'8' ∷ b'9' ∷ b'a' ∷ b'b' ∷ b'c'
        ∷ b'd' ∷ b'e' ∷ b'f' ∷ [])
      n 0

-- the digits that the loop pushes
unfoldable pub hex_encode : Bytes → Bytes
hex_encode [] = []
hex_encode (b ∷ bytes) = hex_digit (b / 16) ∷ hex_digit (bit_and b 0x0F) ∷ hex_encode bytes

abbrev pub within : ℕ → ℕ → ℕ → Bool
within low high c = leb low c && leb c high

unfoldable pub hex_nibble : ℕ → Option ℕ
hex_nibble c =
    if within b'0' b'9' c
    then some (c - b'0')
    else if within b'a' b'f' c
    then some (c - b'a' + 10)
    else if within b'A' b'F' c
    then some (c - b'A' + 10)
    else none

-- `(hi << 4) | lo`, and what follows the byte
abbrev pub with_byte : Option ℕ → Option ℕ → Option Bytes → Option Bytes
with_byte (some hi) (some lo) (some bytes) = some (bit_or (hi * 16 % 256) lo ∷ bytes)
with_byte _ _ _ = none

-- the loop over the digits, of which there are two for each byte
unfoldable pub hex_decode : Bytes → Option Bytes
unfolding hex_nibble
hex_decode [] = some []
hex_decode (hi ∷ []) = none
hex_decode (hi ∷ lo ∷ digits) = with_byte (hex_nibble hi) (hex_nibble lo) (hex_decode digits)

unfoldable pub hex_decode_fixed : ℕ → Bytes → Option Bytes
unfolding hex_decode
hex_decode_fixed n s = if length s == n * 2 then hex_decode s else none

unfoldable pub traceparent_string : TraceContext → Bytes
unfolding hex_encode
traceparent_string context =
    version
    ++ dash
      ∷ (hex_encode context.trace_id
          ++ dash ∷ (hex_encode context.span_id ++ dash ∷ hex_encode (context.trace_flags ∷ [])))

-- `s.split('-')`
unfoldable pub split : Bytes → List Bytes
split [] = [] ∷ []
split (b ∷ bytes) = let rest = split bytes in if b == dash then [] ∷ rest else grow b rest

-- a context, where its parts are hexadecimal digits and its identifiers are not zero
abbrev pub with_parts :
    Option Bytes → Option Bytes → Option Bytes → Option Bytes → Option TraceContext
with_parts (some trace_id) (some span_id) (some (flags ∷ more)) tracestate =
    if is_all_zero trace_id || is_all_zero span_id
    then none
    else some (record {
      trace_id = trace_id;
      span_id = span_id;
      trace_flags = flags;
      tracestate = tracestate;
    })
with_parts _ _ _ tracestate = none

abbrev pub parse_parts : List Bytes → Option Bytes → Option TraceContext
parse_parts (v ∷ trace_id ∷ span_id ∷ flags ∷ []) tracestate =
    if same_bytes v version
    then with_parts (hex_decode_fixed 16 trace_id) (hex_decode_fixed 8 span_id)
        (hex_decode_fixed 1 flags) tracestate
    else none
parse_parts _ tracestate = none

unfoldable pub parse_traceparent : Bytes → Option Bytes → Option TraceContext
unfolding split same_bytes hex_decode_fixed
parse_traceparent s tracestate = parse_parts (split s) tracestate

-- one round of the loop of `from_properties`: a later value replaces an earlier one
abbrev pub keep : Bytes × Bytes → Option Bytes × Option Bytes → Option Bytes × Option Bytes
keep (key, value) (traceparent, tracestate) =
    if same_bytes key traceparent_key
    then (some value, tracestate)
    else if same_bytes key tracestate_key
    then (traceparent, some value)
    else (traceparent, tracestate)

unfoldable pub scan :
    List (Bytes × Bytes) → Option Bytes × Option Bytes → Option Bytes × Option Bytes
unfolding same_bytes
scan [] found = found
scan (pair ∷ pairs) found = scan pairs (keep pair found)

abbrev pub parse_found : Option Bytes × Option Bytes → Option TraceContext
parse_found (none, tracestate) = none
parse_found (some traceparent, tracestate) = parse_traceparent traceparent tracestate

unfoldable pub from_properties : Properties → Option TraceContext
unfolding scan parse_traceparent
from_properties props = parse_found (scan (user_properties props) (none, none))

abbrev pub inject_state : Option Bytes → Properties → Properties
inject_state none props = props
inject_state (some state) props = push user_property (string_pair tracestate_key state) props

unfoldable pub inject : TraceContext → Properties → Properties
unfolding traceparent_string
inject context props =
    inject_state context.tracestate
      (push user_property (string_pair traceparent_key (traceparent_string context)) props)
