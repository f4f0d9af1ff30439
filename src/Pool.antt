-- ===== src/Pool.antt =====
-- internal/pool: object pools.
pub mod Generic
pub mod Clean
pub mod Count
pub mod Messages
pub mod Reuse
pub mod Buffers
pub mod Sizes
pub mod Total
pub mod Examples
