-- ===== src/Node.antt =====
-- internal/server/server.go and system_service.go: what every server has in common.
pub mod State
pub mod Config
pub mod System
pub mod Lifecycle
pub mod Ports
pub mod Service
pub mod Answers
pub mod Examples
pub mod ServiceExamples
