-- ===== src/Client.antt =====
-- src/client.rs: the blocking client.
pub mod State
pub mod Action
pub mod Sending
pub mod Reading
pub mod Waiting
pub mod Operations
pub mod Connecting
pub mod Evolves
pub mod Kept
pub mod Triple
pub mod Settled
pub mod Connected
pub mod Identifiers
pub mod Ending
pub mod Acknowledged
