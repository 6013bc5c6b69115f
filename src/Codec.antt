-- ===== src/Codec.antt =====
-- src/codec/: the wire format, one module for each part of it.
pub mod Types
pub mod Words
pub mod Utf8
pub mod Cursor
pub mod Encode
pub mod FixedHeader
pub mod Topic
pub mod Properties
pub mod VariableInt
pub mod Strings
pub mod Packets
pub mod Connect
pub mod Publish
pub mod Subscribe
pub mod Ping
pub mod Packet
