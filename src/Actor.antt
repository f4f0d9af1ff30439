-- ===== src/Actor.antt =====
-- internal/actor: actors with a mailbox, and the system that holds them.
pub mod Mailbox
pub mod Order
pub mod System
pub mod Lifecycle
pub mod Examples
