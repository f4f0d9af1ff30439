-- ===== src/Lobby/Effects.antt =====
-- What the lobby handlers do to the stored rooms, on every branch.
pub mod Stored
pub mod Joining
pub mod Creating
pub mod Leaving
pub mod Invariant
pub mod Race
pub mod Listed
