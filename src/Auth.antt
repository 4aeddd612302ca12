-- ===== src/Auth.antt =====
-- internal/auth: sessions, tokens, the service and the middleware.
pub mod External
pub mod Memory
pub mod Texts
pub mod Sessions
pub mod Tokens
pub mod Service
pub mod Guard
pub mod Handlers
