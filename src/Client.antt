-- ===== src/Client.antt =====
-- The tunnel client: internal/client and cmd/selftunnel-client.
pub mod Address
pub mod Requests
pub mod Forward
pub mod Connection
pub mod Serving
pub mod Power
pub mod Settings
pub mod Slots
