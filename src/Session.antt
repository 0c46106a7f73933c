-- ===== src/Session.antt =====
-- internal/session: sessions of streamed answers, and the manager that owns them.
pub mod Types
pub mod Goroutine
pub mod Manager
mod Examples
