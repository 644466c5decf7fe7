-- ===== src/Store.antt =====
-- internal/store: the credentials and the reserved subdomains of a server.
pub mod Token
pub mod Secret
pub mod Db
pub mod Tokens
pub mod Reservations
mod Examples
