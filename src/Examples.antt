-- ===== src/Examples.antt =====
-- The theorems at concrete inputs.
mod Vault
mod Proxy
mod Auth
mod Quota
mod Jobs
mod Access
mod Policies
mod Audits
mod Schedules
mod Requests
