-- ===== src/Oauth.antt =====
-- internal/mcpoauth: the OAuth authorization server that issues gateway keys to MCP clients.
pub mod Scope
pub mod Tables
pub mod Exchange
pub mod Refresh
pub mod Issue
pub mod Linked
pub mod Outcomes
pub mod Once
pub mod Conditions
pub mod Replay
pub mod Decision
pub mod Issuer
pub mod Password
pub mod Register
pub mod Request
pub mod Authorize
pub mod Issuance
pub mod Token
pub mod Routes
