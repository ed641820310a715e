-- ===== src/Supervisor.antt =====
-- apps/process-execution: the process that serves the supervisor to local callers.
pub mod Framing
