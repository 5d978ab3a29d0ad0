-- ===== src/Examples.antt =====
-- Concrete runs of the modelled code, which show that the theorems' hypotheses can hold.
pub mod World
pub mod Endpoints
pub mod Credentials
pub mod Gateway
pub mod Forwarding
pub mod Oauth
pub mod Server
pub mod Adminauth
pub mod Operatorlogin
pub mod Invites
pub mod Issuance
pub mod Texts
pub mod Counters
pub mod Quotas
pub mod Pools
pub mod Adminweb
