-- ===== src/Codec/Connect/Capabilities.antt =====
-- src/codec/connect.rs: `validate_connack` and `ServerCapabilities`.
use mqtt_wasi.Prelude.{
  ℕ, Bool, true, false, not, ◌&&◌, Option, none, some, ltb, ◌==◌, is_empty, if◌then◌else◌,
}
use mqtt_wasi.Errors.{Result, ◌>>◌, malformed_packet, invalid_options, fail_if}
use mqtt_wasi.Codec.Words.{Bytes}
use mqtt_wasi.Codec.Types.{QoS, at_most_once, at_least_once, qos_code}
use mqtt_wasi.Codec.Topic.{validate_topic_filter, has_wildcard, is_shared}
use mqtt_wasi.Codec.Properties.{
  PropertyId, assigned_client_identifier, maximum_qos, retain_available,
  wildcard_subscription_available, shared_subscription_available, Properties, get_byte, get_string,
}
use mqtt_wasi.Codec.Packets.{ConnAckPacket}

-- `matches!(identifier, Some(identifier) if !identifier.is_empty())`
abbrev is_non_empty : Option Bytes → Bool
is_non_empty none = false
is_non_empty (some identifier) = not (is_empty identifier)

unfoldable pub validate_connack : Bytes → Bool → ConnAckPacket → Result (Unit {0})
validate_connack requested_client_id clean_start connack = do
  fail_if (clean_start && connack.session_present)
      (malformed_packet "CONNACK has session present after clean start")
  fail_if (is_empty requested_client_id && connack.session_present)
      (malformed_packet "CONNACK has session present for a newly assigned client identifier")
  fail_if
      (is_empty requested_client_id
        && not (is_non_empty (get_string assigned_client_identifier connack.properties)))
      (malformed_packet "CONNACK omitted a non-empty assigned client identifier")

pub record ServerCapabilities : Type 0 where
  pub maximum_qos : QoS
  pub retain_available : Bool
  pub wildcard_subscriptions_available : Bool
  pub shared_subscriptions_available : Bool

-- `none` is the panic of `unreachable!`.
unfoldable pub maximum_qos_from : Option ℕ → Option QoS
maximum_qos_from none = some at_least_once
maximum_qos_from (some b) =
    if b == 0 then some at_most_once else if b == 1 then some at_least_once else none

-- `properties.get_byte(id).unwrap_or(1) != 0`
abbrev pub is_available : PropertyId → Properties → Bool
is_available id props = elim (get_byte id props) [ none ↦ true | some b ↦ not (b == 0) ]

abbrev pub with_maximum_qos : Properties → Option QoS → Option ServerCapabilities
with_maximum_qos props none = none
with_maximum_qos props (some qos) = some (record {
  maximum_qos = qos;
  retain_available = is_available retain_available props;
  wildcard_subscriptions_available = is_available wildcard_subscription_available props;
  shared_subscriptions_available = is_available shared_subscription_available props;
})

-- `ServerCapabilities::from_connack`; `none` if it panics.
unfoldable pub from_connack : ConnAckPacket → Option ServerCapabilities
unfolding maximum_qos_from
from_connack connack =
    with_maximum_qos connack.properties (maximum_qos_from (get_byte maximum_qos connack.properties))

unfoldable pub validate_publish : ServerCapabilities → QoS → Bool → Result (Unit {0})
validate_publish capabilities qos retain = do
  fail_if (ltb (qos_code capabilities.maximum_qos) (qos_code qos))
      (invalid_options "broker does not support QoS 1 publishing")
  fail_if (retain && not capabilities.retain_available)
      (invalid_options "broker does not support retained publishing")

unfoldable pub validate_subscription_filter : ServerCapabilities → Bytes → Result (Unit {0})
validate_subscription_filter capabilities filter = do
  validate_topic_filter filter
  fail_if (is_shared filter && not capabilities.shared_subscriptions_available)
      (invalid_options "broker does not support shared subscriptions")
  fail_if (has_wildcard filter && not capabilities.wildcard_subscriptions_available)
      (invalid_options "broker does not support wildcard subscriptions")

abbrev pub default_capabilities : ServerCapabilities
default_capabilities = record {
  maximum_qos = at_least_once;
  retain_available = true;
  wildcard_subscriptions_available = true;
  shared_subscriptions_available = true;
}
