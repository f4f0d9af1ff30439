-- ===== src/Log.antt =====
-- internal/logger: what is handed to zap, the global logger and the loggers for one purpose.
pub mod Zap
pub mod Config
pub mod Logger
pub mod Global
pub mod Kinds
pub mod Business
pub mod Entries
pub mod First
pub mod Purposes
pub mod Examples
