-- ===== src/Database.antt =====
-- internal/database/mongodb: the repositories, over a MongoDB that is a parameter.
pub mod Mongo
pub mod Rooms
pub mod Users
pub mod Effects
pub mod Memory
pub mod Manager
pub mod Connecting
pub mod Examples
