-- ===== src/Core/Runtime/Tests.antt =====
-- Small registries, and the theorems applied there.
use execution_provider.Prelude.Dict.{All}
use execution_provider.Prelude.{
  ℕ, ◌+◌, ◌≤◌, ◌≡◌, refl, Bool, true, false, Option, none, some, [], ◌∷◌, arith, length, string_eq,
  nat_eq, unwrap_or,
}
use execution_provider.Core.Errors.{Result, ok}
use execution_provider.Core.Config.{default_limits, from_secs}
use execution_provider.Core.Types.{
  Execution, ExecutionState, Command, IoMode, StdinState, StartRequest, RunRequest, ListRequest,
  StateFilter, TerminateRunReceipt,
}
use execution_provider.Core.Session.{Session}
use execution_provider.Core.Runtime
use execution_provider.Core.Runtime.{
  Entry, Registry, empty_registry, cleanup, session, admit_start, terminate_run,
}
use execution_provider.Core.Runtime.Index.{IsIndexed}
use execution_provider.Core.Runtime.Calls.{Admits, admit_start-Admits}
use execution_provider.Core.Runtime.Runs.{Admission, admit_run}
use execution_provider.Core.Runtime.Runs.Admission.{AdmitsRun, admit_run-AdmitsRun}
use execution_provider.Core.Spool.{OutputSpool, create}
use execution_provider.Core.Runtime.Runs.Cancelling.{Cancels, admit_run-Cancels}
use execution_provider.Core.Runtime.Env.{Env, merge_env}
use execution_provider.Core.Runtime.Ending.{Ends, terminate_run-Ends}
use execution_provider.Core.Runtime.Control.{shutdown}
use execution_provider.Core.Runtime.Control.Closing.{
  IsStopped, StartsNothing, RunsNothing, shutdown-IsStopped,
}
use execution_provider.Core.Runtime.Paging.{page}
use execution_provider.Core.Runtime.Paging.Traversal.{Continues, page-Continues}

abbrev request : StartRequest
request = record {
  start_id = "s";
  command = Command.program "/bin/cat" [];
  cwd = none;
  env = [];
  shell_snapshot = none;
  io = IoMode.pipes true;
  wait_ms = 0;
  max_output_bytes = none;
  labels = [];
}

abbrev run_request : RunRequest
run_request = record {
  run_id = "r";
  command = Command.program "/bin/cat" [];
  cwd = none;
  env = [];
  shell_snapshot = none;
  timeout_ms = none;
  max_output_bytes = none;
  labels = [];
}

abbrev execution : ℕ → ExecutionState → Execution
execution id state = record {
  handle = record { id = id; generation_id = 1 };
  command = Command.program "/bin/cat" [];
  resolved_shell = none;
  cwd = "/";
  io = IoMode.pipes true;
  labels = [];
  state = state;
  result = none;
  created_at = 0;
  started_at = none;
  finished_at = none;
  output_incomplete = false;
  input_error = none;
}

abbrev session_of : ℕ → ExecutionState → Option ℕ → Session
session_of id state finished_at = record {
  execution = execution id state;
  journal = record { chunks = []; start = 0; end = 0; capacity = 8; revision = 0 };
  launched = true;
  root_exited = false;
  finished_at = finished_at;
  stop_deadline = none;
  stop_reason = none;
  control = false;
  stdin = StdinState.opened;
  input_tx = false;
  input_receipts = [];
  interrupt_receipts = [];
  output_spool = none;
  input_capacity = 8;
  queue = [];
  receiver = false;
  in_flight = 0;
  limits = default_limits;
}

-- A finished start, and a run that goes on.
abbrev registry : Registry
registry = record {
  entries =
      (
        1,
        record {
          start_request = some request;
          run_request = none;
          session = session_of 11 ExecutionState.finished (some 5);
        },
      )
      ∷ (
        2,
        record {
          start_request = none;
          run_request = some run_request;
          session = session_of 12 ExecutionState.running none;
        },
      )
      ∷ [];
  handles = (11, 1) ∷ (12, 2) ∷ [];
  starts = ("s", 1) ∷ [];
  runs = ("r", 2) ∷ [];
  pending_run_terminations = [];
  next_sequence = 3;
  shutting_down = false;
}

registry-IsIndexed : IsIndexed registry
registry-IsIndexed = record {
  entries = (refl, (refl, tt));
  handles = ((refl, (refl, tt)), ((_, refl, refl), ((_, refl, refl), tt)));
  starts = ((refl, tt), ((_, refl, request, refl, refl), tt));
  runs = ((refl, tt), ((_, refl, run_request, refl, refl), tt));
  earlier = (omega arith, (omega arith, tt));
}

-- A quarter of an hour later the start is forgotten.
late_cleanup :
    cleanup (from_secs 900 + 5) default_limits registry
    ≡ some (record registry {
      entries =
          (
            2,
            record {
              start_request = none;
              run_request = some run_request;
              session = session_of 12 ExecutionState.running none;
            },
          )
          ∷ [];
      handles = (12, 2) ∷ [];
      starts = [];
    })
unfolding cleanup Runtime.discard
late_cleanup = refl

retried_start :
    admit_start 6 default_limits request (execution 13 ExecutionState.starting) registry
    ≡ some (ok (session_of 11 ExecutionState.finished (some 5), true), registry)
unfolding admit_start
retried_start = refl

admit_start-Admits_example :
    (t : Registry) × (result : Result (Session × Bool)) × (u : Registry) × (cleanup 6 default_limits
        registry
      ≡ some t)
    × (admit_start 6 default_limits
          (record request { start_id = "new" })
          (execution 13 ExecutionState.starting)
          registry
        ≡ some (result, u))
    × IsIndexed u
    × Admits default_limits (record request { start_id = "new" }) t result u
admit_start-Admits_example =
    admit_start-Admits 6 default_limits (record request { start_id = "new" })
      (execution 13 ExecutionState.starting) registry registry-IsIndexed

abbrev new_spool : Result OutputSpool
new_spool = ok (create 7 "/tmp/7" 16)

-- The termination of a run that has not come.
abbrev expecting : Registry
expecting = record registry { pending_run_terminations = ("new", 5) ∷ ("other", 5) ∷ [] }

expecting-IsIndexed : IsIndexed expecting
expecting-IsIndexed = record {
  entries = registry-IsIndexed.entries;
  handles = registry-IsIndexed.handles;
  starts = registry-IsIndexed.starts;
  runs = registry-IsIndexed.runs;
  earlier = registry-IsIndexed.earlier;
}

abbrev new_run : RunRequest
new_run = record run_request { run_id = "new" }

retried_run :
    admit_run 6 default_limits run_request (execution 13 ExecutionState.starting) new_spool registry
    ≡ some (ok (session_of 12 ExecutionState.running none, true, none), registry)
unfolding admit_run
retried_run = refl

admit_run-AdmitsRun_example :
    (t : Registry) × (result : Result Admission) × (u : Registry) × (cleanup 6 default_limits
        expecting
      ≡ some t)
    × (admit_run 6 default_limits new_run (execution 13 ExecutionState.starting) new_spool expecting
        ≡ some (result, u))
    × IsIndexed u
    × AdmitsRun default_limits new_run t result u
admit_run-AdmitsRun_example =
    admit_run-AdmitsRun 6 default_limits new_run (execution 13 ExecutionState.starting) new_spool
      expecting expecting-IsIndexed

admit_run-Cancels_example :
    (result : Result Admission) × (u : Registry) × (admit_run 6 default_limits new_run
        (execution 13 ExecutionState.starting)
        new_spool
        expecting
      ≡ some (result, u))
    × Cancels new_run 5 result u
admit_run-Cancels_example =
    admit_run-Cancels 6 5 default_limits new_run (execution 13 ExecutionState.starting) new_spool
      expecting expecting-IsIndexed refl refl (omega arith)

abbrev base_env : Env
base_env = ("Path", "/bin") ∷ ("HOME", "/root") ∷ []

abbrev own_env : Env
own_env = ("PATH", "/usr/bin") ∷ []

-- On Windows a variable takes the place of one whose name differs in case only.
one_merged : merge_env true base_env own_env ≡ ("HOME", "/root") ∷ ("PATH", "/usr/bin") ∷ []
unfolding merge_env
one_merged = refl

run_id_allowed :
    Runtime.check_terminate_run default_limits "r" (unwrap_or none default_limits.termination_grace)
    ≡ ok tt
run_id_allowed = refl

-- The runtime shuts down meanwhile.
abbrev closing : Registry → Registry
closing r = record r { shutting_down = true }

closing-IsIndexed : (r : Registry) → IsIndexed r → IsIndexed (closing r)
closing-IsIndexed r h = record {
  entries = h.entries;
  handles = h.handles;
  starts = h.starts;
  runs = h.runs;
  earlier = h.earlier;
}

terminate_run-Ends_example :
    (t : Registry) × (result : Result TerminateRunReceipt) × (u : Registry) × (cleanup 6
        default_limits registry
      ≡ some t)
    × (terminate_run 6 default_limits "r" none closing closing registry ≡ some (result, u))
    × IsIndexed u
    × Ends 6 (from_secs 2) "r" closing closing t result u
terminate_run-Ends_example =
    terminate_run-Ends 6 default_limits "r" none closing closing registry run_id_allowed
      closing-IsIndexed closing-IsIndexed registry-IsIndexed

abbrev list_request : ListRequest
list_request = record { state = StateFilter.all; labels = []; limit = 1; page_cursor = none }

page-Continues_example :
    let p = page 1 list_request 0 2 registry in
    (length p.executions ≤ 1) × Continues list_request 0 2 registry p p.next_page_cursor
page-Continues_example = page-Continues 1 list_request 0 2 registry (omega arith, (omega arith, tt))

abbrev interrupted : Session
interrupted = record (session_of 12 ExecutionState.running none) {
  control = true;
  interrupt_receipts = ("i", ok (execution 12 ExecutionState.running)) ∷ [];
}

abbrev closed : Registry
unfolding shutdown
closed = shutdown 6 default_limits registry

late_retry :
    admit_start 6 default_limits request (execution 13 ExecutionState.starting) closed
    ≡ some (ok (session_of 11 ExecutionState.finished (some 5), true), closed)
unfolding admit_start shutdown closed
late_retry = refl

shutdown-IsStopped_example :
    All IsStopped closed.entries
    × StartsNothing
        (admit_start 6 default_limits request (execution 13 ExecutionState.starting) closed)
    × RunsNothing
        (admit_run 6 default_limits new_run (execution 13 ExecutionState.starting) new_spool closed)
unfolding closed
shutdown-IsStopped_example =
    shutdown-IsStopped 6 6 default_limits registry request new_run
      (execution 13 ExecutionState.starting) new_spool
