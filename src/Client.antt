-- ===== src/Client.antt =====
-- internal/client: the agent and the configuration of the command line.
pub mod Profiles
pub mod Agent
mod Examples
