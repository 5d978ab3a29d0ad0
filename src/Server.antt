-- ===== src/Server.antt =====
-- internal/server/server.go: the handler that composes the parts.
pub mod Routes
pub mod Access
pub mod Verify
pub mod Serve
