-- ===== src/Core/Runtime/Calls.antt =====
-- The runtime's calls on an indexed registry: none of them panics, and each leaves it indexed.
use execution_provider.Prelude.{
  ℕ, ◌+◌, ◌≤◌, ◌<◌, ◌≡◌, refl, ◌∙◌, inl, inr, Bool, true, false, none, some, arith, length,
  string_eq, nat_eq, Bool-cases, Option-cases,
}
use execution_provider.Prelude.Dict.{
  get, insert, All-get, All-map, All-insert, insert-Distinct, get-insert_ne, get-insert_self,
  length-insert_new,
}
use execution_provider.Core.Errors.{Result, ok, err}
use execution_provider.Core.Config.{Limits}
use execution_provider.Core.Types.{Uuid, Time, StartRequest, Execution}
use execution_provider.Core.Session.{Session, StopReason}
use execution_provider.Core.Session
use execution_provider.Core.Runtime
use execution_provider.Core.Runtime.{
  Entry, Registry, cleanup, session, admit_start, terminate_run, record_start, is_full,
  count_active, same_start, start_conflict,
}
use execution_provider.Core.Runtime.Index.{IsHandle, IsStart, IsRun, IsIndexed, cleanup-IsIndexed}

-- What a lookup of a handle answers: an error, or the session of that very handle.
abbrev pub Finds : Uuid → Result Session → Type 0
Finds id (ok s) = s.execution.handle.id ≡ id
Finds id (err e) = e ≡ Runtime.not_found

-- Looking up a handle never panics, leaves the registry indexed, and answers with the session of that
-- handle, if with any.
pub session-Finds :
    (now : Time) (limits : Limits) (id : Uuid) (r : Registry)
    → IsIndexed r
    → (result : Result Session) × (t : Registry) × (session now limits id r ≡ some (result, t))
      × IsIndexed t
      × Finds id result
unfolding session
session-Finds now limits id r h =
    let (t, cleaned, indexed) = cleanup-IsIndexed now limits r h in
    elim (Option-cases (get id t.handles)) [
      | inl missing ↦ (err Runtime.not_found, t, rw (cleaned, missing, session) refl, indexed, refl)
      | inr (sequence, found) ↦
          let (entry, there, named) =
            All-get (IsHandle t.entries) id sequence t.handles indexed.handles.1 found in
          (ok entry.session, t, rw (cleaned, found, there, session) refl, indexed, named)
    ]

module _ (r : Registry) (h : IsIndexed r) (entry : Entry) where
  pub unused : get r.next_sequence r.entries ≡ none
  unused = elim (Option-cases (get r.next_sequence r.entries)) [
    | inl e ↦ e
    | inr (x, found) ↦ absurd (
        omega
          (arith, All-get (λ s _. s < r.next_sequence) r.next_sequence x r.entries h.earlier found))
  ]

  pub also :
      (sequence : ℕ) (e : Entry)
      → get sequence r.entries ≡ some e
      → get sequence (insert r.next_sequence entry r.entries) ≡ some e
  also sequence e found =
      get-insert_ne r.next_sequence sequence entry r.entries (λ same.
        ground
          (arith, All-get (λ s _. s < r.next_sequence) sequence e r.entries h.earlier found, same))
      ∙ found

record_start-IsIndexed :
    (request : StartRequest) (s : Session) (r : Registry)
    → IsIndexed r
    → IsIndexed (record_start request s r)
record_start-IsIndexed request s r h =
    let entry : Entry = record { start_request = some request; run_request = none; session = s } in
    let entries = insert r.next_sequence entry r.entries in
    let here : get r.next_sequence entries ≡ some entry =
      get-insert_self r.next_sequence entry r.entries in
    record {
      entries = insert-Distinct r.next_sequence entry r.entries h.entries;
      handles = (
        insert-Distinct s.execution.handle.id r.next_sequence r.handles h.handles.0,
        All-insert (IsHandle entries) s.execution.handle.id r.next_sequence r.handles
            (entry, here, refl)
            (All-map (IsHandle r.entries) (IsHandle entries) r.handles
              (λ id other (x, found, named). (x, also r h entry other x found, named)) h.handles.1),
      );
      starts = (
        insert-Distinct request.start_id r.next_sequence r.starts h.starts.0,
        All-insert (IsStart entries) request.start_id r.next_sequence r.starts
            (entry, here, request, refl, refl)
            (All-map (IsStart r.entries) (IsStart entries) r.starts
              (λ id other (x, found, q, was, named).
                (x, also r h entry other x found, q, was, named))
              h.starts.1),
      );
      runs = (
        h.runs.0,
        All-map (IsRun r.entries) (IsRun entries) r.runs
            (λ id other (x, found, q, was, named). (x, also r h entry other x found, q, was, named))
            h.runs.1,
      );
      earlier =
          All-insert (λ n _. n < r.next_sequence + 1) r.next_sequence entry r.entries (omega arith)
            (All-map (λ n _. n < r.next_sequence) (λ n _. n < r.next_sequence + 1) r.entries
              (λ n x lt. omega (arith, lt)) h.earlier);
    }

-- What a start does to the cleaned registry `t`: a retry gives the session of the first start, a new
-- start takes the next sequence within the limits, an error changes nothing.
abbrev pub Admits : Limits → StartRequest → Registry → Result (Session × Bool) → Registry → Type 0
Admits limits request t (err e) u = u ≡ t
Admits limits request t (ok (s, true)) u =
    (sequence : ℕ) × (entry : Entry) × (get request.start_id t.starts ≡ some sequence)
    × (get sequence t.entries ≡ some entry)
    × (same_start entry.start_request request ≡ true)
    × (s ≡ entry.session)
    × (u ≡ t)
Admits limits request t (ok (s, false)) u =
    (get request.start_id t.starts ≡ none)
    × (t.shutting_down ≡ false)
    × (length u.entries ≤ limits.max_retained_executions)
    × (count_active t.entries < limits.max_active_executions)
    × (get request.start_id u.starts ≡ some t.next_sequence)
    × (get s.execution.handle.id u.handles ≡ some t.next_sequence)

started-Admits :
    (limits : Limits) (request : StartRequest) (execution : Execution) (t : Registry)
    → IsIndexed t
    → get request.start_id t.starts ≡ none
    → let (result, u) = Runtime.started limits request execution t in
      IsIndexed u × Admits limits request t result u
unfolding Session.new
started-Admits limits request execution t h fresh =
    let s = Session.new execution limits none in
    let entry : Entry = record { start_request = some request; run_request = none; session = s } in
    let i = record_start-IsIndexed request s t h in
    elim (Bool-cases t.shutting_down) [
      | inl closing ↦ simp closing (h, refl)
      | inr going ↦ elim (Bool-cases (is_full limits t)) [
        | inl full ↦ simp (going, full) (h, refl)
        | inr room ↦
            simp (going, room)
              (
                record {
                  entries = i.entries;
                  handles = i.handles;
                  starts = i.starts;
                  runs = i.runs;
                  earlier = i.earlier;
                },
                (
                  fresh,
                  refl,
                  ground (
                    arith,
                    room,
                    length-insert_new t.next_sequence entry t.entries (unused t h entry),
                  ),
                  ground (arith, room),
                  get-insert_self request.start_id t.next_sequence t.starts,
                  get-insert_self execution.handle.id t.next_sequence t.handles,
                ),
              )
      ]
    ]

-- A start of a cleaned registry never panics, leaves it indexed, and is either a retry of the very
-- same request, which changes nothing, or a new execution within the limits, or refused without a
-- trace.
pub admit_start-Admits :
    (now : Time) (limits : Limits) (request : StartRequest) (execution : Execution) (r : Registry)
    → IsIndexed r
    → (t : Registry) × (result : Result (Session × Bool)) × (u : Registry) × (cleanup now limits r
        ≡ some t)
      × (admit_start now limits request execution r ≡ some (result, u))
      × IsIndexed u
      × Admits limits request t result u
unfolding admit_start
admit_start-Admits now limits request execution r h =
    let (t, cleaned, indexed) = cleanup-IsIndexed now limits r h in
    elim (Option-cases (get request.start_id t.starts)) [
      | inl fresh ↦
          let (i, a) = started-Admits limits request execution t indexed fresh in
          (
            t,
            (Runtime.started limits request execution t).0,
            (Runtime.started limits request execution t).1,
            cleaned,
            rw (cleaned, fresh, admit_start) refl,
            i,
            a,
          )
      | inr (sequence, found) ↦
          let (entry, there, first, was, named) =
            All-get (IsStart t.entries) request.start_id sequence t.starts indexed.starts.1 found in
          elim (Bool-cases (same_start entry.start_request request)) [
            | inl same ↦ (
              t,
              ok (entry.session, true),
              t,
              cleaned,
              rw (cleaned, found, there, same, admit_start) refl,
              indexed,
              (sequence, entry, found, there, same, refl, refl),
            )
            | inr other ↦ (
              t,
              err start_conflict,
              t,
              cleaned,
              rw (cleaned, found, there, other, admit_start) refl,
              indexed,
              refl,
            )
          ]
    ]
