-- ===== src/Http.antt =====
-- What stands between the HTTP server and the components (apps/gateway/src).
pub mod Errors
pub mod Cookies
pub mod Guards
pub mod SignIn
pub mod ScheduledScans
