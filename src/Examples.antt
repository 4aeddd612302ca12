-- ===== src/Examples.antt =====
-- The theorems at concrete inputs.
mod Errors
mod Friends
mod Presence
mod Chat
mod Auth
mod Leaderboard
mod Platforms
mod Core
mod Admin
mod Users
mod Handlers
pub mod Wiring
