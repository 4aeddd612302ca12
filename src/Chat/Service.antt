-- ===== src/Chat/Service.antt =====
-- internal/chat/service.go: the handlers of `ChatService` for one message of one connection.
pub mod Hub
pub mod Rooms
pub mod Messages
pub mod Dispatch
pub mod Safety
pub mod Delivery
pub mod Sessions
pub mod Blocking
pub mod Entry
pub mod Receivers
