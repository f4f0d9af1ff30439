-- ===== src/Discovery.antt =====
-- internal/discovery: the services of the system, and which of them a call goes to.
pub mod Balance
pub mod Rotation
pub mod Lightest
pub mod Registry
pub mod Cache
pub mod Refresh
pub mod Watching
pub mod ById
pub mod Examples
pub mod RefreshExamples
