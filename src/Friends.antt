-- ===== src/Friends.antt =====
-- internal/friends: friendships, blocks and presence.
pub mod Redis
pub mod Memory
pub mod State
pub mod Blocks
pub mod Requests
pub mod Presence
pub mod Handlers
