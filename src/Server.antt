-- ===== src/Server.antt =====
-- internal/server/server.go: the parts of the event server that decide, without HTTP.
pub mod Limits
pub mod Login
pub mod Access
pub mod Sessions
mod Examples
pub mod Handlers
