-- ===== src/Core.antt =====
-- packages/process-execution-core: the supervisor of local processes.
pub mod Errors
pub mod Types
pub mod Config
pub mod Journal
pub mod Spool
pub mod Session
pub mod Requests
pub mod Runtime
pub mod Files
pub mod Patch
