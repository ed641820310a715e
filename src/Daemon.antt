-- ===== src/Daemon.antt =====
-- apps/process-execution-host-daemon: the installed host that answers a gateway.
pub mod Receipts
