-- ===== src/Chat.antt =====
-- internal/chat: the frames of the TCP protocol, the connections and the chat service.
pub mod Codec
pub mod Messages
pub mod Server
pub mod Service
pub mod Presence
pub mod Handlers
