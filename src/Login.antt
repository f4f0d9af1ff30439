-- ===== src/Login.antt =====
-- internal/server/login_server.go and internal/cache/session.go: logins and sessions.
pub mod Sessions
pub mod Service
pub mod Tokens
pub mod Examples
