-- ===== src/Security.antt =====
-- internal/security: rate limiting.
pub mod Limiter
pub mod Keys
pub mod Examples
