-- ===== src/Monitoring.antt =====
-- internal/monitoring: alerts and metrics.
pub mod Alerts
pub mod Cooldown
pub mod Sent
pub mod Metrics
pub mod Recorded
pub mod Examples
