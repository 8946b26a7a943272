-- ===== src/Gui.antt =====
-- The graphical front ends without their widgets: cmd/selftunnel-server-gui and
-- cmd/selftunnel-client-gui.
pub mod LogRing
pub mod Ports
pub mod Sessions
pub mod RelayWindow
pub mod ClientWindow
mod Tests
