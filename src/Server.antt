-- ===== src/Server.antt =====
-- The relay server: internal/server.
pub mod Mailbox
pub mod Session
pub mod Registry
pub mod Intake
pub mod Relay
pub mod Admission
pub mod DebugLog
pub mod Lifecycle
pub mod Writer
pub mod World
