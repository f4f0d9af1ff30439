-- ===== src/Lobby.antt =====
-- internal/server/lobby_server.go: the lobby, in which users list, create, join and leave rooms.
pub mod Messages
pub mod Create
pub mod Join
pub mod Leave
pub mod Listing
pub mod Rules
pub mod Effects
pub mod Examples
pub mod RaceExamples
pub mod ListExamples
