-- ===== src/Http.antt =====
-- internal/transport/http: the memories' markdown files, requests and handlers.
pub mod Samples
mod Examples
mod SaveExamples
mod StoreExamples
pub mod Ids
pub mod Markdown
pub mod MemoryFiles
pub mod Save
pub mod Request
pub mod Status
pub mod Search
pub mod Qa
pub mod Sse
pub mod Handlers
