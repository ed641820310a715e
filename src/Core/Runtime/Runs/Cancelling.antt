-- ===== src/Core/Runtime/Runs/Cancelling.antt =====
-- A termination that is asked for before its run comes.
use execution_provider.Prelude.{
  String, ℕ, ◌-◌, ◌<◌, ◌≡◌, refl, sym, ap, ◌∙◌, inl, inr, Bool, true, false, Option, none, some,
  List, [], ◌∷◌, arith, string_eq, nat_eq, ltb, filterb, Bool-cases, Option-cases,
}
use execution_provider.Prelude.Dict.{Dict, get, remove}
use execution_provider.Core.Errors.{Result, ok, err}
use execution_provider.Core.Config.{Limits}
use execution_provider.Core.Types.{Time, RunRequest, Execution}
use execution_provider.Core.Spool.{OutputSpool}
use execution_provider.Core.Runtime.{
  Registry, cleanup, expired, retain_pending, discard, discard_all, remove_run, is_full,
}
use execution_provider.Core.Runtime.Index.{IsIndexed, cleanup-IsIndexed}
use execution_provider.Core.Runtime.Runs.{Admission, with_spool, run_new, admit_run}

get-remove-none :
    (id other : String) (runs : Dict String ℕ)
    → get id runs ≡ none
    → get id (remove other runs) ≡ none
get-remove-none id other [] fresh = refl
get-remove-none id other ((k, v) ∷ runs) fresh = ground (arith, get-remove-none id other runs)

get-remove_run :
    (id : String) (request : Option RunRequest) (runs : Dict String ℕ)
    → get id runs ≡ none
    → get id (remove_run request runs) ≡ none
get-remove_run id none runs fresh = fresh
get-remove_run id (some request) runs fresh = get-remove-none id request.run_id runs fresh

get-filterb_kept :
    (p : String × Time → Bool) (id : String) (at : Time) (pending : Dict String Time)
    → get id pending ≡ some at
    → ((k : String) → p (k, at) ≡ true)
    → get id (filterb p pending) ≡ some at
get-filterb_kept p id at [] found keeps = absurd (ground arith)
get-filterb_kept p id at ((k, v) ∷ pending) found keeps =
    ground (arith, keeps k, get-filterb_kept p id at pending)

discard_all-keeps :
    (id : String) (sequences : List ℕ) (r t : Registry)
    → discard_all sequences r ≡ some t
    → get id r.runs ≡ none
    → (t.pending_run_terminations ≡ r.pending_run_terminations) × (get id t.runs ≡ none)
unfolding discard_all discard
discard_all-keeps id [] r t e fresh = (cc, cc)
discard_all-keeps id (sequence ∷ sequences) r t e fresh =
    elim (Option-cases (get sequence r.entries)) [
      | inl missing ↦ absurd (cc)
      | inr (entry, found) ↦
          let step : discard_all (sequence ∷ sequences) r
              ≡ discard_all sequences (discard sequence entry r) =
            rw (found, discard_all) refl in
          discard_all-keeps id sequences (discard sequence entry r) t (sym step ∙ e)
            (get-remove_run id entry.run_request r.runs fresh)
    ]

cleanup-keeps :
    (now at : Time) (limits : Limits) (id : String) (r t : Registry)
    → cleanup now limits r ≡ some t
    → get id r.pending_run_terminations ≡ some at
    → get id r.runs ≡ none
    → now - at < limits.run_output_retention
    → (get id t.pending_run_terminations ≡ some at) × (get id t.runs ≡ none)
unfolding cleanup
cleanup-keeps now at limits id r t cleaned pending fresh recent =
    let (same, none_yet) =
      discard_all-keeps id (expired now limits r.entries) (retain_pending now limits r) t cleaned
        fresh in
    (
      ap (get id) same
          ∙ get-filterb_kept (λ p. ltb (now - p.1) limits.run_output_retention) id at
              r.pending_run_terminations pending (λ k. ground (arith, recent)),
      none_yet,
    )

-- A run that is admitted is told the termination that was asked for at `at`; for one that is refused
-- it stays pending.
abbrev pub Cancels : RunRequest → Time → Result Admission → Registry → Type 0
Cancels request at (err e) u = get request.run_id u.pending_run_terminations ≡ some at
Cancels request at (ok (s, retry, cancelled)) u = (retry ≡ false) × (cancelled ≡ some at)

with_spool-Cancels :
    (limits : Limits) (request : RunRequest) (execution : Execution) (spool : Result OutputSpool)
    (t : Registry) (at : Time)
    → get request.run_id t.pending_run_terminations ≡ some at
    → let (result, u) = with_spool limits request execution spool t in Cancels request at result u
unfolding with_spool
with_spool-Cancels limits request execution (err e) t at pending = pending
with_spool-Cancels limits request execution (ok spool) t at pending = (refl, pending)

run_new-Cancels :
    (limits : Limits) (request : RunRequest) (execution : Execution) (spool : Result OutputSpool)
    (t : Registry) (at : Time)
    → get request.run_id t.pending_run_terminations ≡ some at
    → let (result, u) = run_new limits request execution spool t in Cancels request at result u
unfolding run_new
run_new-Cancels limits request execution spool t at pending = elim (Bool-cases t.shutting_down) [
  | inl closing ↦ simp closing pending
  | inr going ↦ elim (Bool-cases (is_full limits t)) [
    | inl full ↦ simp (going, full) pending
    | inr room ↦ simp (going, room) (with_spool-Cancels limits request execution spool t at pending)
  ]
]

-- A termination that was asked for before its run came, and has not expired since, reaches the run,
-- whatever other executions expire: the run is admitted as a new one that is to be terminated, or it
-- is refused and the termination stays pending. There is no panic.
pub admit_run-Cancels :
    (now at : Time) (limits : Limits) (request : RunRequest) (execution : Execution)
    (spool : Result OutputSpool) (r : Registry)
    → IsIndexed r
    → get request.run_id r.pending_run_terminations ≡ some at
    → get request.run_id r.runs ≡ none
    → now - at < limits.run_output_retention
    → (result : Result Admission) × (u : Registry) × (admit_run now limits request execution spool r
        ≡ some (result, u))
      × Cancels request at result u
unfolding admit_run
admit_run-Cancels now at limits request execution spool r h pending fresh recent =
    let (t, cleaned, indexed) = cleanup-IsIndexed now limits r h in
    let (still, none_yet) =
      cleanup-keeps now at limits request.run_id r t cleaned pending fresh recent in
    (
      (run_new limits request execution spool t).0,
      (run_new limits request execution spool t).1,
      rw (cleaned, none_yet, admit_run) refl,
      run_new-Cancels limits request execution spool t at still,
    )
