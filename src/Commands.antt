-- ===== src/Commands.antt =====
-- The command lines: cmd/selftunnel-server and cmd/selftunnel-client.
pub mod RelayServer
pub mod TunnelClient
mod Tests
