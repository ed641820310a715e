-- ===== src/Core/Runtime.antt =====
-- packages/process-execution-core/src/runtime.rs: the registry of executions. `none` of an operation
-- stands for a panic, of `registry.entries[sequence]` or of an `unwrap`. The registry's session of an
-- entry is the shared session itself. A session's own steps are those of Session/Lifecycle. The current time, the limits, the runtime's generation and
-- fresh identifiers are arguments.
pub mod Index
pub mod Calls
pub mod Ending
pub mod Paging
pub mod Control
pub mod Runs
pub mod Env
mod Tests
use Prim.Native.String.{len}
use execution_provider.Prelude.{
  ℕ, ◌+◌, ◌-◌, String, Bool, true, false, ◌&&◌, ◌||◌, not, Option, none, some, List, [], ◌∷◌, ltb,
  leb, eqb, if◌then◌else◌, length, filterb, map, is_some, unwrap_or, ◌==◌, string_eq, nat_eq, Eq,
}
use execution_provider.Prelude.Dict.{Dict, get, insert, remove}
use execution_provider.Core.Errors.{
  Error, ErrorCode, error, invalid, Result, ok, err, ◌>>=◌, ◌>>◌, fail_if,
}
use execution_provider.Core.Config.{Limits}
use execution_provider.Core.Types.{
  Uuid, Time, Execution, ExecutionHandle, ExecutionState, Shell, StartRequest, RunRequest,
  TerminateRunReceipt, TerminateRunState, is_finished,
}
use execution_provider.Core.Requests.{same_start_request}
use execution_provider.Core.Session.{Session, StopReason, terminate}
use execution_provider.Core.Session

pub record Entry : Type 0 where
  pub start_request : Option StartRequest
  pub run_request : Option RunRequest
  pub session : Session

pub record Registry : Type 0 where
  pub entries : Dict ℕ Entry
  pub handles : Dict Uuid ℕ
  pub starts : Dict String ℕ
  pub runs : Dict String ℕ
  pub pending_run_terminations : Dict String Time
  pub next_sequence : ℕ
  pub shutting_down : Bool

-- The registry that `ProcessExecutionCore::new` makes.
abbrev pub empty_registry : Registry
empty_registry = record {
  entries = [];
  handles = [];
  starts = [];
  runs = [];
  pending_run_terminations = [];
  next_sequence = 1;
  shutting_down = false;
}

abbrev is_over : Option Time → Time → ℕ → Bool
is_over none now retention = false
is_over (some at) now retention = leb retention (now - at)

-- The `filter_map` of `cleanup`.
abbrev is_expired : Time → Limits → Entry → Bool
is_expired now limits entry =
    is_over entry.session.finished_at now
      (if is_some entry.run_request then limits.run_output_retention else limits.finished_retention)

abbrev remove_start : Option StartRequest → Dict String ℕ → Dict String ℕ
remove_start none d = d
remove_start (some request) d = remove request.start_id d

abbrev remove_run : Option RunRequest → Dict String ℕ → Dict String ℕ
remove_run none d = d
remove_run (some request) d = remove request.run_id d

-- One round of the loop of `cleanup`, for the entry of a sequence. Deleting the run's output file is
-- left out.
unfoldable pub discard : ℕ → Entry → Registry → Registry
discard sequence entry r = record r {
  entries = remove sequence r.entries;
  handles = remove entry.session.execution.handle.id r.handles;
  starts = remove_start entry.start_request r.starts;
  runs = remove_run entry.run_request r.runs;
}

unfoldable pub discard_all : List ℕ → Registry → Option Registry
discard_all [] r = some r
discard_all (sequence ∷ rest) r = elim (get sequence r.entries) [
  | none ↦ none
  | some entry ↦ discard_all rest (discard sequence entry r)
]

abbrev pub retain_pending : Time → Limits → Registry → Registry
retain_pending now limits r = record r {
  pending_run_terminations =
      filterb (λ p. ltb (now - p.1) limits.run_output_retention) r.pending_run_terminations;
}

abbrev pub expired : Time → Limits → Dict ℕ Entry → List ℕ
expired now limits entries = map (λ p. p.0) (filterb (λ p. is_expired now limits p.1) entries)

-- `Registry::cleanup`, with the two retentions of the limits, which every call passes.
unfoldable pub cleanup : Time → Limits → Registry → Option Registry
unfolding discard_all
cleanup now limits r = discard_all (expired now limits r.entries) (retain_pending now limits r)

-- `ProcessExecutionCore::generation`
abbrev pub check_generation : Uuid → Uuid → Result (Unit {0})
check_generation own generation =
    fail_if (not (eqb generation own))
      (error ErrorCode.generation_mismatch "execution belongs to another runtime generation")

abbrev pub not_found : Error
not_found = error ErrorCode.not_found "execution was not found or its retention ended"

abbrev indexed_session : Option Entry → Registry → Option (Result Session × Registry)
indexed_session none r = none
indexed_session (some entry) r = some (ok entry.session, r)

abbrev look_up : Option ℕ → Registry → Option (Result Session × Registry)
look_up none r = some (err not_found, r)
look_up (some sequence) r = indexed_session (get sequence r.entries) r

-- `ProcessExecutionCore::session`, past its check of the generation.
unfoldable pub session : Time → Limits → Uuid → Registry → Option (Result Session × Registry)
unfolding cleanup
session now limits id r = elim (cleanup now limits r) [
  | none ↦ none
  | some cleaned ↦ look_up (get id cleaned.handles) cleaned
]

-- The execution that a start records.
abbrev new_execution : StartRequest → Uuid → Uuid → Option Shell → String → Time → Execution
new_execution request id generation resolved_shell cwd now = record {
  handle = record { id = id; generation_id = generation };
  command = request.command;
  resolved_shell = resolved_shell;
  cwd = cwd;
  io = request.io;
  labels = request.labels;
  state = ExecutionState.starting;
  result = none;
  created_at = now;
  started_at = none;
  finished_at = none;
  output_incomplete = false;
  input_error = none;
}

abbrev pub count_active : Dict ℕ Entry → ℕ
count_active entries = length (filterb (λ p. not (is_finished p.1.session.execution.state)) entries)

abbrev pub is_full : Limits → Registry → Bool
is_full limits r =
    leb limits.max_active_executions (count_active r.entries)
    || leb limits.max_retained_executions (length r.entries)

abbrev record_start : StartRequest → Session → Registry → Registry
record_start request s r = record r {
  next_sequence = r.next_sequence + 1;
  handles = insert s.execution.handle.id r.next_sequence r.handles;
  starts = insert request.start_id r.next_sequence r.starts;
  entries =
      insert r.next_sequence
        (record { start_request = some request; run_request = none; session = s }) r.entries;
}

abbrev pub start_conflict : Error
start_conflict = error ErrorCode.idempotency_conflict "start_id was used for different arguments"

-- `entry.start_request.as_ref() == Some(&request)`
abbrev pub same_start : Option StartRequest → StartRequest → Bool
unfolding same_start_request
same_start none request = false
same_start (some first) request = same_start_request first request

-- The answer to a repeated start; the Boolean is the source's `retry`.
abbrev retried :
    StartRequest → Option Entry → Registry → Option (Result (Session × Bool) × Registry)
unfolding same_start_request
retried request none r = none
retried request (some entry) r = some (
  if same_start entry.start_request request then ok (entry.session, true) else err start_conflict,
  r,
)

-- A start under a `start_id` that is not known.
abbrev started : Limits → StartRequest → Execution → Registry → Result (Session × Bool) × Registry
unfolding Session.new
started limits request execution r =
    if r.shutting_down
    then (err (error ErrorCode.unavailable "runtime is shutting down"), r)
    else if is_full limits r
    then (err (error ErrorCode.resource_limit "execution capacity reached"), r)
    else let s = Session.new execution limits none in (ok (s, false), record_start request s r)

abbrev admitted :
    Limits
    → StartRequest
    → Execution
    → Option ℕ
    → Registry
    → Option (Result (Session × Bool) × Registry)
unfolding Session.new same_start_request
admitted limits request execution none r = some (started limits request execution r)
admitted limits request execution (some sequence) r = retried request (get sequence r.entries) r

-- `start_execution`: the block that holds the registry's lock, for the execution that it would record.
unfoldable pub admit_start :
    Time
    → Limits
    → StartRequest
    → Execution
    → Registry
    → Option (Result (Session × Bool) × Registry)
unfolding cleanup Session.new same_start_request
admit_start now limits request execution r = elim (cleanup now limits r) [
  | none ↦ none
  | some cleaned ↦ admitted limits request execution (get request.start_id cleaned.starts) cleaned
]

-- `or_insert`: an identifier that is pending already keeps its time.
abbrev pend : String → Time → Dict String Time → Dict String Time
pend run_id now pending =
    if is_some (get run_id pending) then pending else insert run_id now pending

abbrev with_session : Entry → Session → Entry
with_session entry s = record entry { session = s }

-- `terminate_run` for a run that is not recorded yet.
abbrev pending_run : Time → Limits → String → Registry → Result TerminateRunReceipt × Registry
pending_run now limits run_id r =
    if leb limits.max_retained_executions (length r.pending_run_terminations)
    then (err (error ErrorCode.resource_limit "pending run termination capacity reached"), r)
    else (
      ok (record { run_id = run_id; state = TerminateRunState.pending; execution = none }),
      record r { pending_run_terminations = pend run_id now r.pending_run_terminations },
    )

-- The entry whose session the call holds, as the registry has it now, or as it was last known if it
-- has been discarded.
abbrev held : Entry → ℕ → Registry → Entry
held entry sequence r = unwrap_or (get sequence r.entries) entry

abbrev put_back : ℕ → Entry → Registry → Registry
put_back sequence entry r =
    if is_some (get sequence r.entries)
    then record r { entries = insert sequence entry r.entries }
    else r

-- `terminate_run` for a recorded run; `now` is also the time of the session's stop request. Between the
-- look at the session and the request others may change the registry, as `meanwhile` tells.
abbrev recorded_run :
    Time
    → ℕ
    → String
    → ℕ
    → Entry
    → (Registry → Registry)
    → Registry
    → Result TerminateRunReceipt × Registry
unfolding terminate
recorded_run now grace run_id sequence entry meanwhile r =
    let seen = held entry sequence r in
    let later = meanwhile r in
    let last = held seen sequence later in
    let s = terminate now grace StopReason.explicit_termination last.session in
    if is_finished seen.session.execution.state
    then (
      ok (record {
        run_id = run_id;
        state = TerminateRunState.finished;
        execution = some seen.session.execution;
      }),
      r,
    )
    else (
      ok (record {
        run_id = run_id;
        state = TerminateRunState.terminating;
        execution = some s.execution;
      }),
      put_back sequence (with_session last s) later,
    )

-- What follows the lookup, which has let go of the lock: `between` tells what others do to the registry
-- before this call takes the lock, or looks at the session, again. An unknown run is not looked up a
-- second time.
abbrev terminate_known :
    Time
    → Limits
    → ℕ
    → String
    → (Registry → Registry)
    → (Registry → Registry)
    → Option ℕ
    → Registry
    → Option (Result TerminateRunReceipt × Registry)
unfolding terminate
terminate_known now limits grace run_id between meanwhile none r =
    some (pending_run now limits run_id (between r))
terminate_known now limits grace run_id between meanwhile (some sequence) r =
    elim (get sequence r.entries) [
      | none ↦ none
      | some entry ↦ some (recorded_run now grace run_id sequence entry meanwhile (between r))
    ]

abbrev check_terminate_run : Limits → String → ℕ → Result (Unit {0})
check_terminate_run limits run_id grace = do
  fail_if (eqb (len run_id) 0 || ltb 256 (len run_id))
      (invalid "run_id must contain 1 to 256 bytes")
  fail_if (ltb limits.max_termination_grace grace) (invalid "termination grace exceeds maximum")

-- `terminate_run`, with what others do to the registry while it does not hold the lock.
unfoldable pub terminate_run :
    Time
    → Limits
    → String
    → Option ℕ
    → (Registry → Registry)
    → (Registry → Registry)
    → Registry
    → Option (Result TerminateRunReceipt × Registry)
unfolding cleanup terminate
terminate_run now limits run_id grace between meanwhile r =
    let period = unwrap_or grace limits.termination_grace in
    elim (check_terminate_run limits run_id period) [
      | err e ↦ some (err e, r)
      | ok valid ↦ elim (cleanup now limits r) [
        | none ↦ none
        | some cleaned ↦
            terminate_known now limits period run_id between meanwhile (get run_id cleaned.runs)
              cleaned
      ]
    ]
