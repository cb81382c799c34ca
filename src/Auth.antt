-- ===== src/Auth.antt =====
-- The stores of the credentials: user sessions, magic links and API keys.
pub mod UserSessions
pub mod MagicLinks
pub mod ApiKeys
pub mod Users
