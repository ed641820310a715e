-- ===== src/Core/Runtime/Control/Closing.antt =====
-- What a shutdown does to the sessions and to later starts.
use execution_provider.Prelude.{
  ℕ, ◌≡◌, refl, ◌∙◌, Bool, true, Option, none, some, List, [], ◌∷◌, arith, string_eq, nat_eq, map,
  is_some, ◌⊎◌, inl, inr, Option-cases, subst,
}
use execution_provider.Prelude.Dict.{Dict, get, All}
use execution_provider.Core.Errors.{Result, ok, err}
use execution_provider.Core.Config.{Limits}
use execution_provider.Core.Types.{Time, Execution, is_finished}
use execution_provider.Core.Session.{Session, terminate}
use execution_provider.Core.Runtime.{
  Entry, Registry, discard_all, discard, cleanup, admit_start, admitted, expired, retain_pending,
}
use execution_provider.Core.Types.{StartRequest, RunRequest}
use execution_provider.Core.Spool.{OutputSpool}
use execution_provider.Core.Runtime.Runs.{Admission, admit_run, run_admitted}
use execution_provider.Core.Runtime.Runs.Closing.{run_admitted-closed}
use execution_provider.Core.Runtime.Control.{stop_entry, shutdown}

-- The session's process has exited, or it has been asked to stop.
abbrev pub IsStopped : ℕ → Entry → Type 0
IsStopped sequence entry =
    (is_finished entry.session.execution.state ≡ true)
    ⊎ (entry.session.root_exited ≡ true)
    ⊎ (is_some entry.session.stop_deadline ≡ true)

stop_entry-IsStopped :
    (now : Time) (limits : Limits) (sequence : ℕ) (entry : Entry)
    → IsStopped sequence (stop_entry now limits entry)
unfolding terminate
stop_entry-IsStopped now limits sequence entry = ground arith

stop_entries-IsStopped :
    (now : Time) (limits : Limits) (entries : Dict ℕ Entry)
    → All IsStopped (map (λ p. (p.0, stop_entry now limits p.1)) entries)
unfolding terminate
stop_entries-IsStopped now limits [] = tt
stop_entries-IsStopped now limits ((sequence, entry) ∷ rest) =
    (stop_entry-IsStopped now limits sequence entry, stop_entries-IsStopped now limits rest)

discard_all-closed :
    (due : List ℕ) (r t : Registry) → discard_all due r ≡ some t → t.shutting_down ≡ r.shutting_down
unfolding discard_all discard
discard_all-closed [] r t e = ground arith
discard_all-closed (sequence ∷ due) r t e = elim (Option-cases (get sequence r.entries)) [
  | inl missing ↦ absurd (
      ground (
        arith,
        subst
            (λ o.
              elim o [ none ↦ none | some entry ↦ discard_all due (discard sequence entry r) ]
              ≡ some t)
            missing e,
      ))
  | inr (entry, here) ↦ discard_all-closed due (discard sequence entry r) t (
      subst
        (λ o.
          elim o [ none ↦ none | some entry ↦ discard_all due (discard sequence entry r) ] ≡ some t)
        here e)
]

cleanup-closed :
    (now : Time) (limits : Limits) (r t : Registry)
    → cleanup now limits r ≡ some t
    → t.shutting_down ≡ r.shutting_down
unfolding cleanup
cleanup-closed now limits r t e =
    discard_all-closed (expired now limits r.entries) (retain_pending now limits r) t e

admitted-closed :
    (limits : Limits) (request : StartRequest) (execution : Execution) (known : Option ℕ)
    (t u : Registry) (s : Session) (retry : Bool)
    → t.shutting_down ≡ true
    → admitted limits request execution known t ≡ some (ok (s, retry), u)
    → retry ≡ true
unfolding admitted
admitted-closed limits request execution none t u s retry closed e = ground arith
admitted-closed limits request execution (some sequence) t u s retry closed e =
    elim (Option-cases (get sequence t.entries)) [
      | inl missing ↦ ground arith
      | inr (entry, here) ↦ ground arith
    ]

-- An answer to a start or a run under which no new execution begins: an error or a retry.
abbrev pub StartsNothing : Option (Result (Session × Bool) × Registry) → Type 0
StartsNothing none = Unit
StartsNothing (some (err e, u)) = Unit
StartsNothing (some (ok (s, retry), u)) = retry ≡ true

abbrev pub RunsNothing : Option (Result Admission × Registry) → Type 0
RunsNothing none = Unit
RunsNothing (some (err e, u)) = Unit
RunsNothing (some (ok (s, retry, cancelled), u)) = retry ≡ true

start-StartsNothing :
    (a : Option (Result (Session × Bool) × Registry))
    → ((s : Session) (retry : Bool) (u : Registry) → a ≡ some (ok (s, retry), u) → retry ≡ true)
    → StartsNothing a
start-StartsNothing none h = tt
start-StartsNothing (some (err e, u)) h = tt
start-StartsNothing (some (ok (s, retry), u)) h = h s retry u refl

run-RunsNothing :
    (a : Option (Result Admission × Registry))
    → ((s : Session) (retry : Bool) (cancelled : Option Time) (u : Registry)
        → a ≡ some (ok (s, retry, cancelled), u)
        → retry ≡ true)
    → RunsNothing a
run-RunsNothing none h = tt
run-RunsNothing (some (err e, u)) h = tt
run-RunsNothing (some (ok (s, retry, cancelled), u)) h = h s retry cancelled u refl

closed-StartsNothing :
    (later : Time) (limits : Limits) (r : Registry) (request : StartRequest) (execution : Execution)
    → r.shutting_down ≡ true
    → StartsNothing (admit_start later limits request execution r)
unfolding admit_start
closed-StartsNothing later limits r request execution closed =
    elim (Option-cases (cleanup later limits r)) [
      | inl broken ↦ rw (broken, admit_start) tt
      | inr (t, cleaned) ↦
          rw (cleaned, admit_start)
            (start-StartsNothing
              (admitted limits request execution (get request.start_id t.starts) t)
              (λ s retry u.
                admitted-closed limits request execution (get request.start_id t.starts) t u s retry
                  (cleanup-closed later limits r t cleaned ∙ closed)))
    ]

closed-RunsNothing :
    (later : Time) (limits : Limits) (r : Registry) (request : RunRequest) (execution : Execution)
    (spool : Result OutputSpool)
    → r.shutting_down ≡ true
    → RunsNothing (admit_run later limits request execution spool r)
unfolding admit_run
closed-RunsNothing later limits r request execution spool closed =
    elim (Option-cases (cleanup later limits r)) [
      | inl broken ↦ rw (broken, admit_run) tt
      | inr (t, cleaned) ↦
          rw (cleaned, admit_run)
            (run-RunsNothing
              (run_admitted limits request execution spool (get request.run_id t.runs) t)
              (λ s retry cancelled u.
                run_admitted-closed limits request execution spool (get request.run_id t.runs) t u s
                  retry cancelled (cleanup-closed later limits r t cleaned ∙ closed)))
    ]

-- After a shutdown every session has exited, is finished or has been asked to stop, and no new
-- execution begins: whatever start and whatever run is requested of the registry that it leaves, they
-- are refused or retries.
pub shutdown-IsStopped :
    (now later : Time) (limits : Limits) (r : Registry) (request : StartRequest) (run : RunRequest)
    (execution : Execution) (spool : Result OutputSpool)
    → All IsStopped (shutdown now limits r).entries
      × StartsNothing (admit_start later limits request execution (shutdown now limits r))
      × RunsNothing (admit_run later limits run execution spool (shutdown now limits r))
unfolding shutdown
shutdown-IsStopped now later limits r request run execution spool = (
  stop_entries-IsStopped now limits r.entries,
  closed-StartsNothing later limits (shutdown now limits r) request execution refl,
  closed-RunsNothing later limits (shutdown now limits r) run execution spool refl,
)
