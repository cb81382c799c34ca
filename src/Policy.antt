-- ===== src/Policy.antt =====
-- apps/gateway/src/policy: what a tenant's policy allows.
pub mod Reid
pub mod Config
pub mod BuiltIn
pub mod Resolver
