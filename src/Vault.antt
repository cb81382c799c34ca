-- ===== src/Vault.antt =====
-- The token vault and the sessions that it belongs to (packages/schema/src).
pub mod Crypto
pub mod Rows
pub mod Sessions
pub mod Tokens
pub mod Expiry
pub mod Audit
pub mod TenantKeys
pub mod ApplianceSecrets
