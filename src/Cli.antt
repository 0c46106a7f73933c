-- ===== src/Cli.antt =====
-- internal/cli: the command line client.
mod SampleJson
mod Examples
mod AppExamples
pub mod Client
pub mod Conversation
pub mod App
