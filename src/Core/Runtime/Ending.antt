-- ===== src/Core/Runtime/Ending.antt =====
-- Terminating a run by its identifier, recorded or not.
use execution_provider.Prelude.{
  ℕ, ◌<◌, ◌≡◌, refl, sym, ap, ◌∙◌, inl, inr, String, true, false, Option, none, some, arith, length,
  string_eq, nat_eq, Bool-cases, Option-cases, eqb, leb, eqb_iff, unwrap_or, is_some,
}
use execution_provider.Prelude.Dict.{
  Dict, get, insert, All-get, All-map, All-insert, insert-Distinct, get-insert, get-insert_self,
}
use execution_provider.Core.Errors.{Result, ok, err}
use execution_provider.Core.Config.{Limits}
use execution_provider.Core.Types.{
  Time, Execution, TerminateRunReceipt, TerminateRunState, is_finished,
}
use execution_provider.Core.Session.{Session, StopReason, terminate}
use execution_provider.Core.Runtime
use execution_provider.Core.Runtime.{Entry, Registry, cleanup, terminate_run}
use execution_provider.Core.Runtime.Index.{IsHandle, IsStart, IsRun, IsIndexed, cleanup-IsIndexed}

-- The entry of a sequence with another state of its session: the indices stay right.
module _ (r : Registry) (sequence : ℕ) (entry : Entry) (s : Session)
    (here : get sequence r.entries ≡ some entry)
    (same_id : s.execution.handle.id ≡ entry.session.execution.handle.id) where
  updated : Dict ℕ Entry
  updated = insert sequence (record entry { session = s }) r.entries

  at :
      (other : ℕ) (e : Entry)
      → get other r.entries ≡ some e
      → (f : Entry) × (get other updated ≡ some f)
        × (f.session.execution.handle.id ≡ e.session.execution.handle.id)
        × (f.start_request ≡ e.start_request)
        × (f.run_request ≡ e.run_request)
  unfolding updated
  at other e found = elim (Bool-cases (eqb sequence other)) [
    | inl same ↦
        let now_here : get other r.entries ≡ some entry =
          ap (λ n. get n r.entries) (sym ((eqb_iff sequence other).0 same)) ∙ here in
        (
          record entry { session = s },
          get-insert sequence other (record entry { session = s }) r.entries ∙ ground (arith, same),
          ground (arith, now_here, found, same_id),
          ground (arith, now_here, found),
          ground (arith, now_here, found),
        )
    | inr other_one ↦ (
      e,
      get-insert sequence other (record entry { session = s }) r.entries
          ∙ ground (arith, other_one, found),
      refl,
      refl,
      refl,
    )
  ]

  update-IsIndexed : IsIndexed r → IsIndexed (record r { entries = updated })
  unfolding updated
  update-IsIndexed h = record {
    entries = insert-Distinct sequence (record entry { session = s }) r.entries h.entries;
    handles = (
      h.handles.0,
      All-map (IsHandle r.entries) (IsHandle updated) r.handles
          (λ id other (e, found, named).
            let (f, is, a, b, c) = at other e found in (f, is, a ∙ named))
          h.handles.1,
    );
    starts = (
      h.starts.0,
      All-map (IsStart r.entries) (IsStart updated) r.starts
          (λ id other (e, found, q, was, named).
            let (f, is, a, b, c) = at other e found in (f, is, q, b ∙ was, named))
          h.starts.1,
    );
    runs = (
      h.runs.0,
      All-map (IsRun r.entries) (IsRun updated) r.runs
          (λ id other (e, found, q, was, named).
            let (f, is, a, b, c) = at other e found in (f, is, q, c ∙ was, named))
          h.runs.1,
    );
    earlier =
        All-insert (λ n _. n < r.next_sequence) sequence (record entry { session = s }) r.entries
          (All-get (λ n _. n < r.next_sequence) sequence entry r.entries h.earlier here) h.earlier;
  }

-- What the answer says, for the cleaned registry `t` in which the run was looked up, what others have
-- made of it, `between t` and then `meanwhile (between t)`, and the registry `u` after the call: a run
-- that was not recorded in `t` is remembered as pending, even if it has been recorded since; a session
-- that was seen finished is left alone, and any other has been asked to stop as it then was.
abbrev pub Says :
    TerminateRunState
    → Time
    → ℕ
    → String
    → (Registry → Registry)
    → (Registry → Registry)
    → Registry
    → Option Execution
    → Registry
    → Type 0
Says TerminateRunState.pending now period run_id between meanwhile t execution u =
    (get run_id t.runs ≡ none)
    × (is_some (get run_id u.pending_run_terminations) ≡ true)
    × (execution ≡ none)
    × (u.entries ≡ (between t).entries)
Says TerminateRunState.finished now period run_id between meanwhile t execution u =
    (sequence : ℕ) × (entry : Entry) × (get run_id t.runs ≡ some sequence)
    × (get sequence t.entries ≡ some entry)
    × let seen = Runtime.held entry sequence (between t) in
      (is_finished seen.session.execution.state ≡ true)
      × (execution ≡ some seen.session.execution)
      × (u ≡ between t)
Says TerminateRunState.terminating now period run_id between meanwhile t execution u =
    (sequence : ℕ) × (entry : Entry) × (get run_id t.runs ≡ some sequence)
    × (get sequence t.entries ≡ some entry)
    × let seen = Runtime.held entry sequence (between t) in
      let last = Runtime.held seen sequence (meanwhile (between t)) in
      let s = terminate now period StopReason.explicit_termination last.session in
      (is_finished seen.session.execution.state ≡ false)
      × (execution ≡ some s.execution)
      × (u ≡ Runtime.put_back sequence (record last { session = s }) (meanwhile (between t)))

abbrev pub Ends :
    Time
    → ℕ
    → String
    → (Registry → Registry)
    → (Registry → Registry)
    → Registry
    → Result TerminateRunReceipt
    → Registry
    → Type 0
Ends now period run_id between meanwhile t (err e) u = u ≡ between t
Ends now period run_id between meanwhile t (ok receipt) u =
    (receipt.run_id ≡ run_id)
    × Says receipt.state now period run_id between meanwhile t receipt.execution u

pending_run-Ends :
    (now : Time) (limits : Limits) (period : ℕ) (run_id : String)
    (between meanwhile : Registry → Registry) (t : Registry)
    → IsIndexed (between t)
    → get run_id t.runs ≡ none
    → let (result, u) = Runtime.pending_run now limits run_id (between t) in
      IsIndexed u × Ends now period run_id between meanwhile t result u
pending_run-Ends now limits period run_id between meanwhile t h missing =
    elim (Bool-cases
      (leb limits.max_retained_executions (length (between t).pending_run_terminations))) [
        | inl full ↦ rw full (h, refl)
        | inr room ↦ rw room (
          record {
            entries = h.entries;
            handles = h.handles;
            starts = h.starts;
            runs = h.runs;
            earlier = h.earlier;
          },
          (
            refl,
            (
              missing,
              ground (arith, get-insert_self run_id now (between t).pending_run_terminations),
              refl,
              refl,
            ),
          ),
        )
      ]

terminate_same :
    (now : Time) (period : ℕ) (reason : StopReason) (s : Session)
    → (terminate now period reason s).execution.handle.id ≡ s.execution.handle.id
unfolding terminate
terminate_same now period reason s = ground arith

-- Putting the ended session back where the registry still has it.
put_back-IsIndexed :
    (now : Time) (period sequence : ℕ) (seen : Entry) (r : Registry)
    → IsIndexed r
    → let last = Runtime.held seen sequence r in
      let s = terminate now period StopReason.explicit_termination last.session in
      IsIndexed (Runtime.put_back sequence (record last { session = s }) r)
unfolding updated
put_back-IsIndexed now period sequence seen r h = elim (Option-cases (get sequence r.entries)) [
  | inl gone ↦ rw gone h
  | inr (last, here) ↦
      let s = terminate now period StopReason.explicit_termination last.session in
      rw here (
        update-IsIndexed r sequence last s here
          (terminate_same now period StopReason.explicit_termination last.session) h)
]

recorded_run-Ends :
    (now : Time) (period : ℕ) (run_id : String) (sequence : ℕ) (entry : Entry)
    (between meanwhile : Registry → Registry) (t : Registry)
    → IsIndexed (between t)
    → IsIndexed (meanwhile (between t))
    → get run_id t.runs ≡ some sequence
    → get sequence t.entries ≡ some entry
    → let (result, u) =
        Runtime.recorded_run now period run_id sequence entry meanwhile (between t) in
      IsIndexed u × Ends now period run_id between meanwhile t result u
unfolding Runtime.recorded_run
recorded_run-Ends now period run_id sequence entry between meanwhile t h later found there =
    let seen = Runtime.held entry sequence (between t) in
    elim (Bool-cases (is_finished seen.session.execution.state)) [
      | inl over ↦ rw over (h, (refl, (sequence, entry, found, there, (over, refl, refl))))
      | inr going ↦ rw going (
        put_back-IsIndexed now period sequence seen (meanwhile (between t)) later,
        (refl, (sequence, entry, found, there, (going, refl, refl))),
      )
    ]

known_run :
    (now : Time) (limits : Limits) (period : ℕ) (run_id : String)
    (between meanwhile : Registry → Registry) (sequence : ℕ) (entry : Entry) (t : Registry)
    → get sequence t.entries ≡ some entry
    → Runtime.terminate_known now limits period run_id between meanwhile (some sequence) t
      ≡ some (Runtime.recorded_run now period run_id sequence entry meanwhile (between t))
unfolding Runtime.terminate_known
known_run now limits period run_id between meanwhile sequence entry t there =
    rw (there, Runtime.terminate_known) refl

-- Terminating a run by an identifier and a grace period that are allowed never panics, whatever others
-- do while the lock is free, if they leave the registry indexed; it leaves the registry indexed, and
-- either fails and changes nothing more, or answers `pending` for a run that was not recorded when it
-- was looked up, and remembers it, or `finished` for a session that it then saw finished, or
-- `terminating`, and the session has been asked to stop.
pub terminate_run-Ends :
    (now : Time) (limits : Limits) (run_id : String) (grace : Option ℕ)
    (between meanwhile : Registry → Registry) (r : Registry)
    → Runtime.check_terminate_run limits run_id (unwrap_or grace limits.termination_grace) ≡ ok tt
    → ((t : Registry) → IsIndexed t → IsIndexed (between t))
    → ((t : Registry) → IsIndexed t → IsIndexed (meanwhile t))
    → IsIndexed r
    → (t : Registry) × (result : Result TerminateRunReceipt) × (u : Registry) × (cleanup now limits
          r
        ≡ some t)
      × (terminate_run now limits run_id grace between meanwhile r ≡ some (result, u))
      × IsIndexed u
      × Ends now (unwrap_or grace limits.termination_grace) run_id between meanwhile t result u
unfolding terminate_run
terminate_run-Ends now limits run_id grace between meanwhile r allowed keeps keeps' h =
    let (t, cleaned, indexed) = cleanup-IsIndexed now limits r h in
    let period = unwrap_or grace limits.termination_grace in
    elim (Option-cases (get run_id t.runs)) [
      | inl missing ↦
          let (i, e) =
            pending_run-Ends now limits period run_id between meanwhile t (keeps t indexed)
              missing in
          let (result, u) = Runtime.pending_run now limits run_id (between t) in
          (t, result, u, cleaned, rw (allowed, cleaned, missing, terminate_run) refl, i, e)
      | inr (sequence, found) ↦
          let (entry, there, request, ran, named) =
            All-get (IsRun t.entries) run_id sequence t.runs indexed.runs.1 found in
          let (i, e) =
            recorded_run-Ends now period run_id sequence entry between meanwhile t (keeps t indexed)
              (keeps' (between t) (keeps t indexed)) found there in
          let (result, u) =
            Runtime.recorded_run now period run_id sequence entry meanwhile (between t) in
          (
            t,
            result,
            u,
            cleaned,
            rw (allowed, cleaned, found, terminate_run)
                (known_run now limits period run_id between meanwhile sequence entry t there),
            i,
            e,
          )
    ]
