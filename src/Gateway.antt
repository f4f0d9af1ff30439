-- ===== src/Gateway.antt =====
-- internal/server/gateway_server.go: the messages of clients.
pub mod Messages
pub mod Handler
pub mod Routing
pub mod Replies
pub mod Examples
