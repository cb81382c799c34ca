-- ===== src/Quota.antt =====
-- apps/gateway/src/quota: what a tenant may ask for, and spend.
pub mod Redis
pub mod RateLimit
pub mod SpendRate
pub mod SpendCap
