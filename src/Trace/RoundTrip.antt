-- ===== src/Trace/RoundTrip.antt =====
-- src/trace.rs: a context that was printed, or injected, is the one that is read.
use mqtt_wasi.Prelude.{
  ◌<◌, ◌≡◌, refl, ap, ◌∙◌, Bool, true, false, Option, none, some, List, [], ◌∷◌, ◌++◌, length, All,
  if◌then◌else◌,
}
use mqtt_wasi.Codec.Words.{Bytes, IsByte, same_bytes}
use mqtt_wasi.Codec.Properties.{
  Properties, Entry, user_property, string_pair, push, user_properties, user_pairs, with_pair,
  PropertyValue, same_id, property_id_code, or_else,
}
use mqtt_wasi.Trace.{
  TraceContext, is_all_zero, version, split, traceparent_key, tracestate_key, hex_encode,
  parse_traceparent, traceparent_string, keep, scan, parse_found, from_properties, inject_state,
  inject,
}
use mqtt_wasi.Trace.Hex.{hex_decode_fixed-hex_encode, hex_encode-no_dash}
use mqtt_wasi.Trace.Dashes.{split-append, split-whole}

-- The sizes of the arrays, and what the constructors check.
pub record IsContext (context : TraceContext) : Type 0 where
  pub trace_size : length context.trace_id ≡ 16
  pub trace_bytes : All IsByte context.trace_id
  pub span_size : length context.span_id ≡ 8
  pub span_bytes : All IsByte context.span_id
  pub flags_byte : context.trace_flags < 256
  pub trace_nonzero : is_all_zero context.trace_id ≡ false
  pub span_nonzero : is_all_zero context.span_id ≡ false

split_lem :
    (context : TraceContext)
    → IsContext context
    → split (traceparent_string context)
      ≡ version
        ∷ hex_encode context.trace_id
        ∷ hex_encode context.span_id
        ∷ hex_encode (context.trace_flags ∷ [])
        ∷ []
unfolding traceparent_string
split_lem context i = rw (
  split-append version _ refl,
  split-append (hex_encode context.trace_id) _ (hex_encode-no_dash _ i.trace_bytes),
  split-append (hex_encode context.span_id) _ (hex_encode-no_dash _ i.span_bytes),
  split-whole (hex_encode (context.trace_flags ∷ []))
      (hex_encode-no_dash (context.trace_flags ∷ []) (i.flags_byte, tt)),
)

-- A valid context that is printed and parsed, with any trace state, is that context with that
-- state.
pub parse_traceparent-traceparent_string :
    (context : TraceContext) (state : Option Bytes)
    → IsContext context
    → parse_traceparent (traceparent_string context) state
      ≡ some (record context { tracestate = state })
unfolding parse_traceparent
parse_traceparent-traceparent_string context state i = rw (
  split_lem context i,
  hex_decode_fixed-hex_encode 16 context.trace_id i.trace_size i.trace_bytes,
  hex_decode_fixed-hex_encode 8 context.span_id i.span_size i.span_bytes,
  hex_decode_fixed-hex_encode 1 (context.trace_flags ∷ []) refl (i.flags_byte, tt),
  i.trace_nonzero,
  i.span_nonzero,
)

same_user : same_id user_property user_property ≡ true
unfolding same_id property_id_code
same_user = refl

user_pairs-append :
    (entries : List Entry) (key value : Bytes)
    → user_pairs (entries ++ (user_property, string_pair key value) ∷ [])
      ≡ user_pairs entries ++ (key, value) ∷ []
unfolding user_pairs
user_pairs-append [] key value = rw same_user refl
user_pairs-append ((id, v) ∷ entries) key value =
    go (same_id id user_property) v _ _ (user_pairs-append entries key value)
  where
    go :
        (is_user : Bool) (v : PropertyValue) (pairs pairs' : List (Bytes × Bytes))
        → pairs ≡ pairs' ++ (key, value) ∷ []
        → (if is_user then with_pair v pairs else pairs)
          ≡ (if is_user then with_pair v pairs' else pairs') ++ (key, value) ∷ []
    go false v pairs pairs' e = e
    go true (string_pair k w) pairs pairs' e = ap (λ rest. (k, w) ∷ rest) e
    go true v pairs pairs' e = e

scan-append :
    (pairs : List (Bytes × Bytes)) (key value : Bytes) (found : Option Bytes × Option Bytes)
    → scan (pairs ++ (key, value) ∷ []) found ≡ keep (key, value) (scan pairs found)
unfolding scan
scan-append [] key value found = refl
scan-append (pair ∷ pairs) key value found = scan-append pairs key value (keep pair found)

-- A user property more is read last.
found_after :
    (props : Properties) (key value : Bytes) (found : Option Bytes × Option Bytes)
    → scan (user_properties (push user_property (string_pair key value) props)) found
      ≡ keep (key, value) (scan (user_properties props) found)
unfolding user_properties
found_after props key value found =
    rw (user_pairs-append props.entries key value)
      (scan-append (user_pairs props.entries) key value found)

-- The trace state that stands in the properties already.
abbrev pub state_in : Properties → Option Bytes
state_in props = (scan (user_properties props) (none, none)).1

injected :
    (context : TraceContext) (props : Properties) (state : Option Bytes)
    → scan
        (user_properties (
          inject_state state
            (push user_property (string_pair traceparent_key (traceparent_string context)) props)))
        (none, none)
      ≡ (some (traceparent_string context), or_else state (state_in props))
unfolding same_bytes scan
injected context props none =
    found_after props traceparent_key (traceparent_string context) (none, none)
injected context props (some state) =
    found_after
      (push user_property (string_pair traceparent_key (traceparent_string context)) props)
      tracestate_key state (none, none)
    ∙ ap (keep (tracestate_key, state))
        (found_after props traceparent_key (traceparent_string context) (none, none))

-- A valid context that is injected is the one that is read, whatever properties there were. Its
-- trace state is the context's own, and without one it is the last that stood there before.
pub from_properties-inject :
    (context : TraceContext) (props : Properties)
    → IsContext context
    → from_properties (inject context props)
      ≡ some (record context { tracestate = or_else context.tracestate (state_in props) })
unfolding from_properties inject
from_properties-inject context props i =
    ap parse_found (injected context props context.tracestate)
    ∙ parse_traceparent-traceparent_string context _ i
