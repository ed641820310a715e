-- ===== src/Protocol.antt =====
-- packages/process-execution-protocol: what the supervisor, the daemon and the gateway exchange.
pub mod Limits
pub mod Operations
pub mod Batch
