-- ===== src/Core/Config/Tests.antt =====
-- The default limits and others, validated.
use execution_provider.Prelude.{◌≡◌, refl}
use execution_provider.Core.Errors.{ok, err, invalid}
use execution_provider.Core.Config.{default_limits, validate}

defaults_pass : validate default_limits ≡ ok tt
unfolding validate
defaults_pass = refl

no_queue_fails :
    validate (record default_limits { max_queued_input_bytes = 0 })
    ≡ err (invalid "resource limits must be positive")
unfolding validate
no_queue_fails = refl

-- A retention below a millisecond is positive.
short_passes : validate (record default_limits { run_output_retention = 1 }) ≡ ok tt
unfolding validate
short_passes = refl
