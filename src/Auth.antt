-- ===== src/Auth.antt =====
-- internal/auth: passwords, users and login sessions.
pub mod Base64
pub mod Session
pub mod Users
