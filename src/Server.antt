-- ===== src/Server.antt =====
-- internal/server: the edge, the control channel and the management API.
pub mod Config
pub mod Tunnel
pub mod Registry
pub mod Tcp
pub mod Control
pub mod Api
pub mod Lifecycle
pub mod Http
pub mod Session
pub mod Fixtures
mod Examples
