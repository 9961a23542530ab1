-- ===== src/Ipc.antt =====
-- crates/voidns-core/src/ipc.rs
pub mod Wire
pub mod Socket
pub mod Endpoint
pub mod Frame
pub mod Server
pub mod Client
pub mod Fixtures
mod Examples
