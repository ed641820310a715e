-- ===== src/Gateway.antt =====
-- apps/execution-gateway: the service that remote callers use.
pub mod Waiters
