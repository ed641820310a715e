-- ===== src/Core/Runtime/Runs.antt =====
-- packages/process-execution-core/src/runtime.rs: the block of `run_execution` that holds the
-- registry's lock. The execution that would be recorded and the answer of `OutputSpool::create` are
-- arguments.
pub mod Admission
pub mod Cancelling
pub mod Closing
use execution_provider.Prelude.{
  ℕ, ◌+◌, String, Bool, true, false, Option, none, some, if◌then◌else◌, string_eq, nat_eq,
}
use execution_provider.Prelude.Dict.{get, insert, remove}
use execution_provider.Core.Errors.{Error, ErrorCode, error, Result, ok, err}
use execution_provider.Core.Config.{Limits}
use execution_provider.Core.Types.{Time, Uuid, Shell, IoMode, ExecutionState, RunRequest, Execution}
use execution_provider.Core.Requests.{same_run_request}
use execution_provider.Core.Spool.{OutputSpool}
use execution_provider.Core.Session.{Session}
use execution_provider.Core.Session
use execution_provider.Core.Runtime.{Entry, Registry, cleanup, is_full}

-- What the block gives: the session, the source's `retry`, and its `cancelled`.
abbrev pub Admission : Type 0
Admission = Session × Bool × Option Time

-- The execution that a run records.
abbrev new_run_execution : RunRequest → Uuid → Uuid → Option Shell → String → Time → Execution
new_run_execution request id generation resolved_shell cwd now = record {
  handle = record { id = id; generation_id = generation };
  command = request.command;
  resolved_shell = resolved_shell;
  cwd = cwd;
  io = IoMode.pipes false;
  labels = request.labels;
  state = ExecutionState.starting;
  result = none;
  created_at = now;
  started_at = none;
  finished_at = none;
  output_incomplete = false;
  input_error = none;
}

abbrev pub record_run : RunRequest → Session → Registry → Registry
record_run request s r = record r {
  next_sequence = r.next_sequence + 1;
  handles = insert s.execution.handle.id r.next_sequence r.handles;
  runs = insert request.run_id r.next_sequence r.runs;
  pending_run_terminations = remove request.run_id r.pending_run_terminations;
  entries =
      insert r.next_sequence
        (record { start_request = none; run_request = some request; session = s }) r.entries;
}

abbrev pub run_conflict : Error
run_conflict = error ErrorCode.idempotency_conflict "run_id was used for different arguments"

-- `entry.run_request.as_ref() == Some(&request)`
abbrev pub same_run : Option RunRequest → RunRequest → Bool
unfolding same_run_request
same_run none request = false
same_run (some first) request = same_run_request first request

-- The answer to a repeated run.
abbrev run_again : RunRequest → Option Entry → Registry → Option (Result Admission × Registry)
unfolding same_run_request
run_again request none r = none
run_again request (some entry) r = some (
  if same_run entry.run_request request then ok (entry.session, true, none) else err run_conflict,
  r,
)

abbrev pub with_spool :
    Limits → RunRequest → Execution → Result OutputSpool → Registry → Result Admission × Registry
unfolding Session.new
with_spool limits request execution (err e) r = (err e, r)
with_spool limits request execution (ok spool) r =
    let s = Session.new execution limits (some spool) in
    (ok (s, false, get request.run_id r.pending_run_terminations), record_run request s r)

-- A run under a `run_id` that is not known.
abbrev pub run_new :
    Limits → RunRequest → Execution → Result OutputSpool → Registry → Result Admission × Registry
unfolding Session.new
run_new limits request execution spool r =
    if r.shutting_down
    then (err (error ErrorCode.unavailable "runtime is shutting down"), r)
    else if is_full limits r
    then (err (error ErrorCode.resource_limit "execution capacity reached"), r)
    else with_spool limits request execution spool r

abbrev pub run_admitted :
    Limits
    → RunRequest
    → Execution
    → Result OutputSpool
    → Option ℕ
    → Registry
    → Option (Result Admission × Registry)
unfolding Session.new same_run_request
run_admitted limits request execution spool none r = some (run_new limits request execution spool r)
run_admitted limits request execution spool (some sequence) r =
    run_again request (get sequence r.entries) r

unfoldable pub admit_run :
    Time
    → Limits
    → RunRequest
    → Execution
    → Result OutputSpool
    → Registry
    → Option (Result Admission × Registry)
unfolding cleanup Session.new same_run_request
admit_run now limits request execution spool r = elim (cleanup now limits r) [
  | none ↦ none
  | some cleaned ↦
      run_admitted limits request execution spool (get request.run_id cleaned.runs) cleaned
]
