-- ===== src/Core.antt =====
-- internal/core: the errors, and the way a Go call that changes state returns them.
pub mod Errors
pub mod Exec
pub mod App
pub mod Middleware
pub mod Http
pub mod Config
