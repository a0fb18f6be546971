-- ===== src/Lobby.antt =====
-- The websocket lobby: runtime/lobbyws.
pub mod Bytes
pub mod Frames
pub mod Mask
pub mod Client
pub mod Pieces
pub mod Fragments
pub mod Bounds
pub mod Ends
pub mod Messages
mod Tests
