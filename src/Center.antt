-- ===== src/Center.antt =====
-- internal/server/center_server.go: the service that watches and commands the nodes.
pub mod Services
pub mod Commands
pub mod Counts
pub mod Delivery
pub mod Examples
