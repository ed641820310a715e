-- ===== src/Core/Runtime/Runs/Admission.antt =====
-- The admission of runs to an indexed registry.
use execution_provider.Prelude.{
  ℕ, ◌+◌, ◌≤◌, ◌<◌, ◌≡◌, refl, inl, inr, true, false, none, some, arith, length, string_eq, nat_eq,
  Bool-cases, Option-cases,
}
use execution_provider.Prelude.Dict.{
  get, insert, remove, All-get, All-map, All-insert, insert-Distinct, get-insert_self,
  length-insert_new,
}
use execution_provider.Core.Errors.{Result, ok, err}
use execution_provider.Core.Config.{Limits}
use execution_provider.Core.Types.{Time, RunRequest, Execution}
use execution_provider.Core.Spool.{OutputSpool}
use execution_provider.Core.Session.{Session}
use execution_provider.Core.Session
use execution_provider.Core.Runtime.{Entry, Registry, cleanup, is_full, count_active}
use execution_provider.Core.Runtime.Index.{IsHandle, IsStart, IsRun, IsIndexed, cleanup-IsIndexed}
use execution_provider.Core.Runtime.Calls.{unused, also}
use execution_provider.Core.Runtime.Runs.{
  Admission, record_run, run_conflict, same_run, run_new, admit_run,
}

record_run-IsIndexed :
    (request : RunRequest) (s : Session) (r : Registry)
    → IsIndexed r
    → IsIndexed (record_run request s r)
record_run-IsIndexed request s r h =
    let entry : Entry = record { start_request = none; run_request = some request; session = s } in
    let entries = insert r.next_sequence entry r.entries in
    let here : get r.next_sequence entries ≡ some entry =
      get-insert_self r.next_sequence entry r.entries in
    record {
      entries = insert-Distinct r.next_sequence entry r.entries h.entries;
      handles = (
        insert-Distinct s.execution.handle.id r.next_sequence r.handles h.handles.0,
        All-insert (IsHandle entries) s.execution.handle.id r.next_sequence r.handles
            (entry, here, refl)
            (All-map (IsHandle r.entries) (IsHandle entries) r.handles
              (λ id other (x, found, named). (x, also r h entry other x found, named)) h.handles.1),
      );
      starts = (
        h.starts.0,
        All-map (IsStart r.entries) (IsStart entries) r.starts
            (λ id other (x, found, q, was, named). (x, also r h entry other x found, q, was, named))
            h.starts.1,
      );
      runs = (
        insert-Distinct request.run_id r.next_sequence r.runs h.runs.0,
        All-insert (IsRun entries) request.run_id r.next_sequence r.runs
            (entry, here, request, refl, refl)
            (All-map (IsRun r.entries) (IsRun entries) r.runs
              (λ id other (x, found, q, was, named).
                (x, also r h entry other x found, q, was, named))
              h.runs.1),
      );
      earlier =
          All-insert (λ n _. n < r.next_sequence + 1) r.next_sequence entry r.entries (omega arith)
            (All-map (λ n _. n < r.next_sequence) (λ n _. n < r.next_sequence + 1) r.entries
              (λ n x lt. omega (arith, lt)) h.earlier);
    }

-- What a run does to the cleaned registry `t`: a retry gives the session of the first run, a new run
-- takes the next sequence within the limits, and with it the termination that was asked for before it
-- came, an error changes nothing.
abbrev pub AdmitsRun : Limits → RunRequest → Registry → Result Admission → Registry → Type 0
AdmitsRun limits request t (err e) u = u ≡ t
AdmitsRun limits request t (ok (s, true, cancelled)) u =
    (sequence : ℕ) × (entry : Entry) × (get request.run_id t.runs ≡ some sequence)
    × (get sequence t.entries ≡ some entry)
    × (same_run entry.run_request request ≡ true)
    × (s ≡ entry.session)
    × (cancelled ≡ none)
    × (u ≡ t)
AdmitsRun limits request t (ok (s, false, cancelled)) u =
    (get request.run_id t.runs ≡ none)
    × (t.shutting_down ≡ false)
    × (length u.entries ≤ limits.max_retained_executions)
    × (count_active t.entries < limits.max_active_executions)
    × (get request.run_id u.runs ≡ some t.next_sequence)
    × (get s.execution.handle.id u.handles ≡ some t.next_sequence)
    × (cancelled ≡ get request.run_id t.pending_run_terminations)
    × (u.pending_run_terminations ≡ remove request.run_id t.pending_run_terminations)

run_new-AdmitsRun :
    (limits : Limits) (request : RunRequest) (execution : Execution) (spool : Result OutputSpool)
    (t : Registry)
    → IsIndexed t
    → get request.run_id t.runs ≡ none
    → let (result, u) = run_new limits request execution spool t in
      IsIndexed u × AdmitsRun limits request t result u
unfolding Session.new
run_new-AdmitsRun limits request execution (err e) t h fresh = elim (Bool-cases t.shutting_down) [
  | inl closing ↦ simp closing (h, refl)
  | inr going ↦ elim (Bool-cases (is_full limits t)) [
    | inl full ↦ simp (going, full) (h, refl)
    | inr room ↦ simp (going, room) (h, refl)
  ]
]
run_new-AdmitsRun limits request execution (ok spool) t h fresh =
    let s = Session.new execution limits (some spool) in
    let entry : Entry = record { start_request = none; run_request = some request; session = s } in
    let i = record_run-IsIndexed request s t h in
    elim (Bool-cases t.shutting_down) [
      | inl closing ↦ simp closing (h, refl)
      | inr going ↦ elim (Bool-cases (is_full limits t)) [
        | inl full ↦ simp (going, full) (h, refl)
        | inr room ↦
            simp (going, room)
              (
                record {
                  entries = i.entries;
                  handles = i.handles;
                  starts = i.starts;
                  runs = i.runs;
                  earlier = i.earlier;
                },
                (
                  fresh,
                  refl,
                  ground (
                    arith,
                    room,
                    length-insert_new t.next_sequence entry t.entries (unused t h entry),
                  ),
                  ground (arith, room),
                  get-insert_self request.run_id t.next_sequence t.runs,
                  get-insert_self execution.handle.id t.next_sequence t.handles,
                  refl,
                  refl,
                ),
              )
      ]
    ]

-- A run on an indexed registry never panics, leaves it indexed, and is either a retry of the very same
-- request, which changes nothing, or a new execution within the limits, or refused without a trace,
-- also when its output file cannot be created. A new run is told whether its termination was asked
-- for before it came, which is then no longer pending.
pub admit_run-AdmitsRun :
    (now : Time) (limits : Limits) (request : RunRequest) (execution : Execution)
    (spool : Result OutputSpool) (r : Registry)
    → IsIndexed r
    → (t : Registry) × (result : Result Admission) × (u : Registry) × (cleanup now limits r
        ≡ some t)
      × (admit_run now limits request execution spool r ≡ some (result, u))
      × IsIndexed u
      × AdmitsRun limits request t result u
unfolding admit_run
admit_run-AdmitsRun now limits request execution spool r h =
    let (t, cleaned, indexed) = cleanup-IsIndexed now limits r h in
    elim (Option-cases (get request.run_id t.runs)) [
      | inl fresh ↦
          let (i, a) = run_new-AdmitsRun limits request execution spool t indexed fresh in
          (
            t,
            (run_new limits request execution spool t).0,
            (run_new limits request execution spool t).1,
            cleaned,
            rw (cleaned, fresh, admit_run) refl,
            i,
            a,
          )
      | inr (sequence, found) ↦
          let (entry, there, first, was, named) =
            All-get (IsRun t.entries) request.run_id sequence t.runs indexed.runs.1 found in
          elim (Bool-cases (same_run entry.run_request request)) [
            | inl same ↦ (
              t,
              ok (entry.session, true, none),
              t,
              cleaned,
              rw (cleaned, found, there, same, admit_run) refl,
              indexed,
              (sequence, entry, found, there, same, refl, refl, refl),
            )
            | inr other ↦ (
              t,
              err run_conflict,
              t,
              cleaned,
              rw (cleaned, found, there, other, admit_run) refl,
              indexed,
              refl,
            )
          ]
    ]
