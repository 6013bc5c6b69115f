-- ===== src/Driver.antt =====
-- src/async_client.rs: the connection driver. So far the operations that wait for an
-- acknowledgement, the choice of packet identifiers, and the life cycle of requests.
pub mod Pending
pub mod Reserved
pub mod Tombstones
pub mod Lifecycle
pub mod LifecycleInvariant
pub mod Outbound
pub mod Accounted
pub mod Wire
pub mod Sends
pub mod Drained
