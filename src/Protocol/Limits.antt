-- ===== src/Protocol/Limits.antt =====
-- The constants of packages/process-execution-protocol/src/lib.rs.
use execution_provider.Prelude.{ℕ, ◌*◌}

abbrev pub version : ℕ
version = 5

abbrev pub max_frame_bytes : ℕ
max_frame_bytes = 8 * 1024 * 1024
