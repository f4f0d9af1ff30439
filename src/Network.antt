-- ===== src/Network.antt =====
-- internal/network: connections, the TCP server and its messages.
pub mod Connection
pub mod Serve
pub mod Framing
pub mod Delivery
pub mod Splitting
pub mod Server
pub mod Table
pub mod Steps
pub mod Limit
pub mod Users
pub mod Flag
pub mod Examples
