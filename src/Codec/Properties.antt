-- ===== src/Codec/Properties.antt =====
-- src/codec/properties.rs: property identifiers, values and contexts, and the list of properties
-- with its accessors.
pub mod Validate
pub mod Encode
pub mod Decode
pub mod Safe
pub mod Format
pub mod Section
pub mod Replace
pub mod Checked
pub mod Values
pub mod RoundTrip
use mqtt_wasi.Prelude.{
  ℕ, Bool, true, false, not, Option, none, some, List, [], ◌∷◌, ◌++◌, ◌==◌, if◌then◌else◌, is_empty,
}
use mqtt_wasi.Codec.Words.{Bytes, one_of}

pub data PropertyId : Type 0 where
  response_topic correlation_data session_expiry_interval : PropertyId
  assigned_client_identifier server_keep_alive reason_string receive_maximum : PropertyId
  topic_alias_maximum maximum_qos retain_available maximum_packet_size : PropertyId
  wildcard_subscription_available user_property : PropertyId
  shared_subscription_available : PropertyId

-- `id as u8`
unfoldable pub property_id_code : PropertyId → ℕ
property_id_code response_topic = 0x08
property_id_code correlation_data = 0x09
property_id_code session_expiry_interval = 0x11
property_id_code assigned_client_identifier = 0x12
property_id_code server_keep_alive = 0x13
property_id_code reason_string = 0x1F
property_id_code receive_maximum = 0x21
property_id_code topic_alias_maximum = 0x22
property_id_code maximum_qos = 0x24
property_id_code retain_available = 0x25
property_id_code maximum_packet_size = 0x27
property_id_code wildcard_subscription_available = 0x28
property_id_code user_property = 0x26
property_id_code shared_subscription_available = 0x2A

unfoldable pub property_id_from_u8 : ℕ → Option PropertyId
property_id_from_u8 val =
    if val == 0x08
    then some response_topic
    else if val == 0x09
    then some correlation_data
    else if val == 0x11
    then some session_expiry_interval
    else if val == 0x12
    then some assigned_client_identifier
    else if val == 0x13
    then some server_keep_alive
    else if val == 0x1F
    then some reason_string
    else if val == 0x21
    then some receive_maximum
    else if val == 0x22
    then some topic_alias_maximum
    else if val == 0x24
    then some maximum_qos
    else if val == 0x25
    then some retain_available
    else if val == 0x26
    then some user_property
    else if val == 0x27
    then some maximum_packet_size
    else if val == 0x28
    then some wildcard_subscription_available
    else if val == 0x2A
    then some shared_subscription_available
    else none

-- `==` on identifiers
unfoldable pub same_id : PropertyId → PropertyId → Bool
unfolding property_id_code
same_id a b = property_id_code a == property_id_code b

pub data PropertyValue : Type 0 where
  byte : ℕ → PropertyValue
  u16 : ℕ → PropertyValue
  u32 : ℕ → PropertyValue
  str : Bytes → PropertyValue
  binary : Bytes → PropertyValue
  string_pair : Bytes → Bytes → PropertyValue

pub data PropertyContext : Type 0 where
  connect conn_ack publish pub_ack subscribe sub_ack unsubscribe : PropertyContext
  unsub_ack disconnect : PropertyContext

unfoldable pub allows : PropertyContext → ℕ → Bool
allows connect id = one_of (0x11 ∷ 0x21 ∷ 0x22 ∷ 0x26 ∷ 0x27 ∷ []) id
allows conn_ack id =
    one_of
      (0x11 ∷ 0x12 ∷ 0x13 ∷ 0x15 ∷ 0x16 ∷ 0x1A ∷ 0x1C ∷ 0x1F ∷ 0x21 ∷ 0x22 ∷ 0x24 ∷ 0x25 ∷ 0x26
        ∷ 0x27 ∷ 0x28 ∷ 0x29 ∷ 0x2A ∷ [])
      id
allows publish id = one_of (0x01 ∷ 0x02 ∷ 0x03 ∷ 0x08 ∷ 0x09 ∷ 0x0B ∷ 0x23 ∷ 0x26 ∷ []) id
allows pub_ack id = one_of (0x1F ∷ 0x26 ∷ []) id
allows sub_ack id = one_of (0x1F ∷ 0x26 ∷ []) id
allows unsub_ack id = one_of (0x1F ∷ 0x26 ∷ []) id
allows subscribe id = one_of (0x0B ∷ 0x26 ∷ []) id
allows unsubscribe id = id == 0x26
allows disconnect id = one_of (0x1C ∷ 0x1F ∷ 0x26 ∷ []) id

abbrev pub Entry : Type 0
Entry = PropertyId × PropertyValue

pub record Properties : Type 0 where
  pub entries : List Entry

abbrev pub no_properties : Properties
no_properties = record { entries = [] }

abbrev pub push : PropertyId → PropertyValue → Properties → Properties
push id value props = record { entries = props.entries ++ (id, value) ∷ [] }

unfoldable pub user : Bytes → Bytes → Properties → Properties
user key value props = push user_property (string_pair key value) props

-- `entries.retain(|(property_id, _)| *property_id != id)`
unfoldable pub retain_other : PropertyId → List Entry → List Entry
retain_other id [] = []
retain_other id ((pid, value) ∷ entries) =
    let rest = retain_other id entries in if same_id pid id then rest else (pid, value) ∷ rest

unfoldable pub replace_single : PropertyId → PropertyValue → Properties → Properties
unfolding retain_other
replace_single id value props = push id value (record { entries = retain_other id props.entries })

unfoldable pub set_response_topic : Bytes → Properties → Properties
unfolding replace_single
set_response_topic topic props = replace_single response_topic (str topic) props

unfoldable pub set_correlation_data : Bytes → Properties → Properties
unfolding replace_single
set_correlation_data bytes props = replace_single correlation_data (binary bytes) props

abbrev pub or_else {ℓ} : {A : Type ℓ} → Option A → Option A → Option A
or_else none o = o
or_else (some a) o = some a

-- `entries.iter().find_map(...)` over the values of one identifier that `pick` accepts
abbrev pub find_value {ℓ} :
    {A : Type ℓ} → (PropertyValue → Option A) → PropertyId → List Entry → Option A
find_value pick id [] = none
find_value pick id ((pid, value) ∷ entries) =
    or_else (if same_id pid id then pick value else none) (find_value pick id entries)

abbrev pub as_byte : PropertyValue → Option ℕ
as_byte (byte b) = some b
as_byte _ = none

abbrev as_u16 : PropertyValue → Option ℕ
as_u16 (u16 v) = some v
as_u16 _ = none

abbrev as_u32 : PropertyValue → Option ℕ
as_u32 (u32 v) = some v
as_u32 _ = none

abbrev as_string : PropertyValue → Option Bytes
as_string (str s) = some s
as_string _ = none

abbrev as_binary : PropertyValue → Option Bytes
as_binary (binary bytes) = some bytes
as_binary _ = none

unfoldable pub get_byte : PropertyId → Properties → Option ℕ
get_byte id props = find_value as_byte id props.entries

unfoldable pub get_u16 : PropertyId → Properties → Option ℕ
get_u16 id props = find_value as_u16 id props.entries

unfoldable pub get_u32 : PropertyId → Properties → Option ℕ
get_u32 id props = find_value as_u32 id props.entries

unfoldable pub get_string : PropertyId → Properties → Option Bytes
get_string id props = find_value as_string id props.entries

unfoldable pub get_binary : PropertyId → Properties → Option Bytes
get_binary id props = find_value as_binary id props.entries

abbrev pub with_pair : PropertyValue → List (Bytes × Bytes) → List (Bytes × Bytes)
with_pair (string_pair k v) pairs = (k, v) ∷ pairs
with_pair _ pairs = pairs

unfoldable pub user_pairs : List Entry → List (Bytes × Bytes)
user_pairs [] = []
user_pairs ((pid, value) ∷ entries) =
    let rest = user_pairs entries in
    if same_id pid user_property then with_pair value rest else rest

unfoldable pub user_properties : Properties → List (Bytes × Bytes)
unfolding user_pairs
user_properties props = user_pairs props.entries

unfoldable pub response_topic_of : Properties → Option Bytes
unfolding get_string
response_topic_of props = get_string response_topic props

unfoldable pub correlation_data_of : Properties → Option Bytes
unfolding get_binary
correlation_data_of props = get_binary correlation_data props
