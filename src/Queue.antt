-- ===== src/Queue.antt =====
-- internal/mq: the manager of the NSQ producers and consumers, and the messages between nodes.
pub mod Nsq
pub mod Manager
pub mod Starting
pub mod Publishing
pub mod Consumers
pub mod Subscriptions
pub mod Messages
pub mod Examples
