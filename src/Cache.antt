-- ===== src/Cache.antt =====
-- internal/cache/redis.go: the lock.
pub mod Locks
pub mod Exclusion
pub mod Examples
