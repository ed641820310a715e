-- ===== src/Core/Config.antt =====
-- packages/process-execution-core/src/config.rs: the limits of a runtime and their validation.
-- Durations are nanoseconds.
mod Tests
use execution_provider.Prelude.{ℕ, ◌+◌, ◌-◌, ◌*◌, ◌/◌, ◌^◌, Bool, List, [], ◌∷◌, any, eqb, ltb, leb}
use execution_provider.Core.Errors.{Result, ok, fail_if, invalid, ◌>>=◌, ◌>>◌}

abbrev pub max_file_bytes : ℕ
max_file_bytes = 5 * 1024 * 1024

abbrev pub max_run_preview_bytes : ℕ
max_run_preview_bytes = 1024 * 1024

-- `u32::MAX` and `u64::MAX`.
abbrev pub u32_max : ℕ
u32_max = 2 ^ 32 - 1

abbrev pub u64_max : ℕ
u64_max = 2 ^ 64 - 1

-- `Duration::from_millis` and `Duration::as_millis`
abbrev pub from_millis : ℕ → ℕ
from_millis n = n * 1000000

abbrev pub as_millis : ℕ → ℕ
as_millis n = n / 1000000

abbrev pub from_secs : ℕ → ℕ
from_secs n = from_millis (n * 1000)

pub record Limits : Type 0 where
  pub max_active_executions : ℕ
  pub max_retained_executions : ℕ
  pub max_retained_output_bytes : ℕ
  pub max_output_bytes_per_response : ℕ
  pub max_queued_input_bytes : ℕ
  pub max_input_receipts : ℕ
  pub max_interrupt_receipts : ℕ
  pub max_wait : ℕ
  pub finished_retention : ℕ
  pub run_output_retention : ℕ
  pub termination_grace : ℕ
  pub max_termination_grace : ℕ
  pub output_drain_timeout : ℕ
  pub max_file_read_bytes : ℕ
  pub max_file_write_bytes : ℕ
  pub max_file_mutation_receipts : ℕ

-- `Limits::default`
abbrev pub default_limits : Limits
default_limits = record {
  max_active_executions = 64;
  max_retained_executions = 1024;
  max_retained_output_bytes = 1024 * 1024;
  max_output_bytes_per_response = 64 * 1024;
  max_queued_input_bytes = 1024 * 1024;
  max_input_receipts = 4096;
  max_interrupt_receipts = 1024;
  max_wait = from_secs 300;
  finished_retention = from_secs (15 * 60);
  run_output_retention = from_secs (24 * 60 * 60);
  termination_grace = from_secs 2;
  max_termination_grace = from_secs 30;
  output_drain_timeout = from_secs 1;
  max_file_read_bytes = max_file_bytes;
  max_file_write_bytes = max_file_bytes;
  max_file_mutation_receipts = 4096;
}

-- `Limits::validate`
unfoldable pub validate : Limits → Result (Unit {0})
validate l = do
  fail_if
      (any (λ n. eqb n 0)
        (l.max_active_executions ∷ l.max_retained_executions ∷ l.max_retained_output_bytes
          ∷ l.max_output_bytes_per_response ∷ l.max_queued_input_bytes ∷ l.max_input_receipts
          ∷ l.max_interrupt_receipts ∷ l.max_file_read_bytes ∷ l.max_file_write_bytes
          ∷ l.max_file_mutation_receipts ∷ []))
      (invalid "resource limits must be positive")
  fail_if (ltb u32_max l.max_queued_input_bytes) (invalid "input queue limit must fit in u32")
  fail_if (ltb l.max_termination_grace l.termination_grace)
      (invalid "default termination grace exceeds maximum")
  fail_if (ltb max_run_preview_bytes l.max_output_bytes_per_response)
      (invalid "output response limit exceeds the 1 MiB run preview maximum")
  fail_if (eqb l.run_output_retention 0) (invalid "run output retention must be positive")
  fail_if (ltb u64_max (as_millis l.run_output_retention))
      (invalid "run output retention is too large")
  fail_if (ltb l.max_file_read_bytes l.max_file_write_bytes)
      (invalid "file write limit cannot exceed the file read limit")
  fail_if (ltb max_file_bytes l.max_file_read_bytes)
      (invalid "file byte limits exceed the protocol-safe maximum")
  ok tt
