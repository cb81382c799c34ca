-- ===== src/Proxy.antt =====
-- The egress proxy (apps/gateway/src/proxy).
pub mod Admission
pub mod Retry
pub mod Stream
pub mod Reidentify
pub mod Redactor
pub mod Orchestrator
