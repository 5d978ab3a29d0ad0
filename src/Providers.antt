-- ===== src/Providers.antt =====
-- internal/providers: the provider names, endpoint URLs, quota configuration, and the repository of
-- provider keys (atomic endpoints) with its selection policy.
pub mod Names
pub mod Endpoints
pub mod QuotaConfig
pub mod KeyTable
pub mod Redact
pub mod Keys
pub mod Settings
pub mod QuotaTables
pub mod Pool
pub mod Health
pub mod Refresh
