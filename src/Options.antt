-- ===== src/Options.antt =====
-- src/options.rs: the options of a connection and of a publication.
pub mod Valid
use mqtt_wasi.Prelude.{
  ℕ, ◌*◌, Bool, true, false, not, ◌&&◌, ◌||◌, Option, none, some, [], leb, ◌==◌, if◌then◌else◌,
}
use mqtt_wasi.Errors.{Result, ok, err, ◌>>◌, invalid_options, fail_if}
use mqtt_wasi.Codec.Words.{Bytes}
use mqtt_wasi.Codec.Types.{QoS, at_most_once}
use mqtt_wasi.Codec.Properties.{Properties, no_properties}
use mqtt_wasi.Io.{instant_add, from_secs, from_millis}

abbrev pub default_max_packet_size : ℕ
default_max_packet_size = 1024 * 1024

pub record ConnectOptions : Type 0 where
  pub client_id : Bytes
  pub keep_alive_secs : ℕ
  pub clean_start : Bool
  pub username : Option Bytes
  pub password : Option Bytes
  pub connect_timeout : ℕ
  pub ack_timeout : ℕ
  pub poll_interval : ℕ
  pub max_packet_size : ℕ
  pub max_incoming_messages : ℕ
  pub command_capacity : ℕ
  pub event_capacity : ℕ
  pub max_outbound_queue_bytes : ℕ

abbrev pub default_options : ConnectOptions
default_options = record {
  client_id = [];
  keep_alive_secs = 60;
  clean_start = true;
  username = none;
  password = none;
  connect_timeout = from_secs 10;
  ack_timeout = from_secs 10;
  poll_interval = from_millis 2;
  max_packet_size = default_max_packet_size;
  max_incoming_messages = 256;
  command_capacity = 64;
  event_capacity = 256;
  max_outbound_queue_bytes = 4 * default_max_packet_size;
}

abbrev pub new_options : Bytes → ConnectOptions
new_options client_id = record default_options { client_id = client_id }

abbrev pub with_keep_alive : ℕ → ConnectOptions → ConnectOptions
with_keep_alive secs options = record options { keep_alive_secs = secs }

abbrev pub with_credentials : Bytes → Bytes → ConnectOptions → ConnectOptions
with_credentials user pass options = record options { username = some user; password = some pass }

abbrev pub with_clean_start : Bool → ConnectOptions → ConnectOptions
with_clean_start clean options = record options { clean_start = clean }

abbrev pub with_connect_timeout : ℕ → ConnectOptions → ConnectOptions
with_connect_timeout timeout options = record options { connect_timeout = timeout }

abbrev pub with_ack_timeout : ℕ → ConnectOptions → ConnectOptions
with_ack_timeout timeout options = record options { ack_timeout = timeout }

abbrev pub with_poll_interval : ℕ → ConnectOptions → ConnectOptions
with_poll_interval interval options = record options { poll_interval = interval }

abbrev pub with_max_packet_size : ℕ → ConnectOptions → ConnectOptions
with_max_packet_size bytes options = record options { max_packet_size = bytes }

abbrev pub with_max_incoming_messages : ℕ → ConnectOptions → ConnectOptions
with_max_incoming_messages count options = record options {
  max_incoming_messages = count;
  event_capacity = count;
}

abbrev pub with_command_capacity : ℕ → ConnectOptions → ConnectOptions
with_command_capacity count options = record options { command_capacity = count }

abbrev pub with_event_capacity : ℕ → ConnectOptions → ConnectOptions
with_event_capacity count options = record options { event_capacity = count }

abbrev pub with_max_outbound_queue_bytes : ℕ → ConnectOptions → ConnectOptions
with_max_outbound_queue_bytes bytes options = record options { max_outbound_queue_bytes = bytes }

abbrev pub is_none : Option ℕ → Bool
is_none none = true
is_none (some t) = false

-- `ConnectOptions::validate`, where `now` is what `Instant::now()` gives.
unfoldable pub validate : ℕ → ℕ → ConnectOptions → Result (Unit {0})
validate latest now options = do
  fail_if (options.connect_timeout == 0) (invalid_options "connect timeout must be non-zero")
  fail_if (options.ack_timeout == 0) (invalid_options "ack timeout must be non-zero")
  fail_if (options.poll_interval == 0) (invalid_options "poll interval must be non-zero")
  fail_if (not (leb 2 options.max_packet_size && leb options.max_packet_size 268_435_460))
      (invalid_options "invalid maximum packet size")
  fail_if
      (options.max_incoming_messages == 0
        || options.command_capacity == 0
        || options.event_capacity == 0
        || options.max_outbound_queue_bytes == 0)
      (invalid_options "queue capacities must be non-zero")
  fail_if
      (is_none (instant_add latest now options.connect_timeout)
        || is_none (instant_add latest now options.ack_timeout))
      (invalid_options "timeout is too large")

pub record PublishOptions : Type 0 where
  pub qos : QoS
  pub retain : Bool
  pub properties : Properties

abbrev pub default_publish_options : PublishOptions
default_publish_options = record { qos = at_most_once; retain = false; properties = no_properties }

abbrev pub with_qos : QoS → PublishOptions → PublishOptions
with_qos qos options = record options { qos = qos }

abbrev pub with_retain : Bool → PublishOptions → PublishOptions
with_retain retain options = record options { retain = retain }

abbrev pub with_properties : Properties → PublishOptions → PublishOptions
with_properties properties options = record options { properties = properties }
