-- ===== src/Codec/Properties/Values.antt =====
-- src/codec/properties.rs: the reads of single values, on the bytes of such a value.
use mqtt_wasi.Prelude.{◌≡◌, true}
use mqtt_wasi.Codec.Words.{Bytes}
use mqtt_wasi.Codec.Strings.{prefixed}
use mqtt_wasi.Codec.Cursor
use mqtt_wasi.Codec.Cursor.{
  Cursor, Read, pure, remaining, remaining_bytes, advance, read_u8, read_u16, read_u32, read_string,
  read_binary, read_variable_int,
}
use mqtt_wasi.Codec.Cursor.Views.{
  Reads, Reads-bind, Reads-u8, Reads-u16, Reads-u32, Reads-string, Reads-binary,
}
use mqtt_wasi.Codec.Properties.{PropertyId, PropertyValue, byte, u16, u32, str, binary, string_pair}
use mqtt_wasi.Codec.Properties.Validate.{has_valid_type}
use mqtt_wasi.Codec.Properties.Decode.{decode_value}
use mqtt_wasi.Codec.Properties.Format.{value_bytes, FitsWire, IsTextValue}

Reads-map :
    {A B : Type 0} (read : Read A) (f : A → B) (bytes : Bytes) (a : A)
    → Reads read bytes a
    → Reads (Cursor.◌>>=◌ read λ x. pure (f x)) bytes (f a)
Reads-map read f bytes a r = record { at = λ c rest h. rw (r.at c rest h) }

pub Reads-value :
    (id : PropertyId) (value : PropertyValue)
    → has_valid_type id value ≡ true
    → IsTextValue value
    → FitsWire value
    → Reads (decode_value id) (value_bytes value) value
unfolding decode_value value_bytes has_valid_type
Reads-value PropertyId.response_topic (str s) v t w =
    Reads-map read_string str _ s (Reads-string s t w.no_null)
Reads-value PropertyId.assigned_client_identifier (str s) v t w =
    Reads-map read_string str _ s (Reads-string s t w.no_null)
Reads-value PropertyId.reason_string (str s) v t w =
    Reads-map read_string str _ s (Reads-string s t w.no_null)
Reads-value PropertyId.correlation_data (binary bytes) v t w =
    Reads-map read_binary binary _ bytes (Reads-binary bytes)
Reads-value PropertyId.session_expiry_interval (u32 n) v t w =
    Reads-map read_u32 u32 _ n (Reads-u32 n)
Reads-value PropertyId.maximum_packet_size (u32 n) v t w = Reads-map read_u32 u32 _ n (Reads-u32 n)
Reads-value PropertyId.server_keep_alive (u16 n) v t w = Reads-map read_u16 u16 _ n (Reads-u16 n)
Reads-value PropertyId.receive_maximum (u16 n) v t w = Reads-map read_u16 u16 _ n (Reads-u16 n)
Reads-value PropertyId.topic_alias_maximum (u16 n) v t w = Reads-map read_u16 u16 _ n (Reads-u16 n)
Reads-value PropertyId.maximum_qos (byte b) v t w = Reads-map read_u8 byte _ b (Reads-u8 b)
Reads-value PropertyId.retain_available (byte b) v t w = Reads-map read_u8 byte _ b (Reads-u8 b)
Reads-value PropertyId.wildcard_subscription_available (byte b) v t w =
    Reads-map read_u8 byte _ b (Reads-u8 b)
Reads-value PropertyId.shared_subscription_available (byte b) v t w =
    Reads-map read_u8 byte _ b (Reads-u8 b)
Reads-value PropertyId.user_property (string_pair k s) v (tk, ts) (wk, ws) =
    Reads-bind read_string _ (prefixed k) (prefixed s) k (string_pair k s)
      (Reads-string k tk wk.no_null)
      (Reads-map read_string (string_pair k) _ s (Reads-string s ts ws.no_null))
Reads-value _ _ v t w = cc
