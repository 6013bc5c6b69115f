-- ===== src/Codec/Packets.antt =====
-- src/codec/types.rs: the packet structures. A `String` is its bytes.
use mqtt_wasi.Prelude.{ℕ, Bool, Option, List}
use mqtt_wasi.Codec.Words.{Bytes}
use mqtt_wasi.Codec.Types.{QoS}
use mqtt_wasi.Codec.Properties.{Properties}

pub record ConnectPacket : Type 0 where
  pub protocol_version : ℕ
  pub clean_start : Bool
  pub keep_alive : ℕ
  pub client_id : Bytes
  pub username : Option Bytes
  pub password : Option Bytes
  pub properties : Properties

pub record ConnAckPacket : Type 0 where
  pub session_present : Bool
  pub reason_code : ℕ
  pub properties : Properties

pub record PublishPacket : Type 0 where
  pub topic : Bytes
  pub packet_id : Option ℕ
  pub payload : Bytes
  pub qos : QoS
  pub retain : Bool
  pub dup : Bool
  pub properties : Properties

pub record PubAckPacket : Type 0 where
  pub packet_id : ℕ
  pub reason_code : ℕ

pub record SubscribePacket : Type 0 where
  pub packet_id : ℕ
  pub filters : List (Bytes × QoS)
  pub properties : Properties

pub record SubAckPacket : Type 0 where
  pub packet_id : ℕ
  pub reason_codes : List ℕ

pub record UnsubscribePacket : Type 0 where
  pub packet_id : ℕ
  pub filters : List Bytes
  pub properties : Properties

pub record UnsubAckPacket : Type 0 where
  pub packet_id : ℕ
  pub reason_codes : List ℕ

pub record DisconnectPacket : Type 0 where
  pub reason_code : ℕ

pub data Packet : Type 0 where
  connect : ConnectPacket → Packet
  conn_ack : ConnAckPacket → Packet
  publish : PublishPacket → Packet
  pub_ack : PubAckPacket → Packet
  subscribe : SubscribePacket → Packet
  sub_ack : SubAckPacket → Packet
  unsubscribe : UnsubscribePacket → Packet
  unsub_ack : UnsubAckPacket → Packet
  ping_req : Packet
  ping_resp : Packet
  disconnect : DisconnectPacket → Packet
