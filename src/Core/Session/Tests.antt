-- ===== src/Core/Session/Tests.antt =====
-- Runs of a session on small inputs, and the theorems applied there.
use text.Mathlib.TextEquality.{eq_iff}
use execution_provider.Prelude.{
  ℕ, ◌-◌, ◌*◌, ◌≡◌, ◌≢◌, refl, inl, String, true, false, none, some, [], ◌∷◌, arith, length,
  string_eq,
}
use execution_provider.Core.Errors.{ok, err}
use execution_provider.Core.Config.{default_limits}
use execution_provider.Core.Types.{
  Bytes, Execution, ExecutionState, ExecutionResult, Command, IoMode, InputReceipt, StdinState,
}
use execution_provider.Core.Session.{
  Session, StopReason, Input, ExitStatus, new, launch, root_exit, terminate, write, result_of,
  input_conflict,
}
use execution_provider.Core.Session.Lifecycle.{Phase, IsCoherent, launches, exits, terminates}
use execution_provider.Core.Session.Progress.{Advances, Steps, none_yet, then_one, Steps-Advances}
use execution_provider.Core.Session.Permits.{all_permits, Step-permits}
use execution_provider.Core.Session.Replay.{write_idempotent}

abbrev execution : Execution
execution = record {
  handle = record { id = 7; generation_id = 1 };
  command = Command.program "/bin/cat" [];
  resolved_shell = none;
  cwd = "/";
  io = IoMode.pipes true;
  labels = [];
  state = ExecutionState.starting;
  result = none;
  created_at = 0;
  started_at = none;
  finished_at = none;
  output_incomplete = false;
  input_error = none;
}

abbrev started : Session
started = record {
  execution = execution;
  journal = record { chunks = []; start = 0; end = 0; capacity = 1024 * 1024; revision = 0 };
  launched = false;
  root_exited = false;
  finished_at = none;
  stop_deadline = none;
  stop_reason = none;
  control = false;
  stdin = StdinState.opened;
  input_tx = false;
  input_receipts = [];
  interrupt_receipts = [];
  output_spool = none;
  input_capacity = 1024 * 1024;
  queue = [];
  receiver = false;
  in_flight = 0;
  limits = default_limits;
}

new_session : new execution default_limits none ≡ started
unfolding new
new_session = refl

abbrev running : Session
running = record started {
  execution = record execution { state = ExecutionState.running; started_at = some 5 };
  journal = record started.journal { revision = 1 };
  control = true;
  launched = true;
  input_tx = true;
  receiver = true;
}

launched_session : launch 5 true started ≡ running
unfolding launch
launched_session = refl

abbrev digest : Bytes → ℕ
digest bytes = length bytes

abbrev receipt : InputReceipt
receipt = record { input_id = "a"; accepted_bytes = 2 }

abbrev fed : Session
fed = record running {
  input_receipts = ("a", (2, receipt)) ∷ [];
  queue = Input.bytes (8 ∷ 9 ∷ []) ∷ [];
  input_capacity = 1024 * 1024 - 2;
}

first_write : write digest "a" (8 ∷ 9 ∷ []) running ≡ ok (receipt, fed)
unfolding write
first_write = refl

conflicting_write : write digest "a" (8 ∷ []) fed ≡ err input_conflict
unfolding write
conflicting_write = refl

a-named : ◌≢◌ {A = String} "a" ""
a-named e = ground (arith, eq_iff "a" "")

fed-Steps :
    Steps fed Phase.awaiting Phase.draining (root_exit (terminate 6 100 StopReason.timeout fed))
fed-Steps = then_one (then_one none_yet (terminates 6 100 StopReason.timeout)) exits

write_idempotent_example :
    let stopped = root_exit (terminate 6 100 StopReason.timeout fed) in
    write digest "a" (8 ∷ 9 ∷ []) stopped ≡ ok (receipt, stopped)
write_idempotent_example =
    write_idempotent running fed (root_exit (terminate 6 100 StopReason.timeout fed)) digest "a"
      (8 ∷ 9 ∷ []) receipt refl first_write fed-Steps

started-IsCoherent : IsCoherent Phase.spawning started
started-IsCoherent = (inl (refl, refl), refl, refl)

Step-permits_example :
    (all_permits (root_exit fed) ≡ all_permits fed) × ((root_exit fed).limits ≡ fed.limits)
Step-permits_example = Step-permits {s = fed} exits

-- The process is launched, a termination is requested, and the child exits.
abbrev ending : Session
ending = root_exit (terminate 6 100 StopReason.timeout (launch 5 true started))

stopping-Steps : Steps started Phase.spawning Phase.draining ending
stopping-Steps =
    then_one (then_one (then_one none_yet (launches 5 true)) (terminates 6 100 StopReason.timeout))
      exits

timed_out :
    result_of (ExitStatus.status none (some "SIGTERM")) none true ending.stop_reason
    ≡ ExecutionResult.timed_out none (some "SIGTERM")
unfolding result_of launch terminate root_exit
timed_out = refl

Steps-Advances_example : IsCoherent Phase.draining ending × Advances started ending
Steps-Advances_example = Steps-Advances started-IsCoherent stopping-Steps
