-- ===== src/Core/Runtime/Runs/Closing.antt =====
-- A run that comes to a registry that is shutting down.
use execution_provider.Prelude.{
  ℕ, ◌≡◌, Bool, true, Option, none, some, arith, string_eq, nat_eq, inl, inr, Option-cases,
}
use execution_provider.Prelude.Dict.{get}
use execution_provider.Core.Errors.{Result, ok}
use execution_provider.Core.Config.{Limits}
use execution_provider.Core.Types.{Time, RunRequest, Execution}
use execution_provider.Core.Spool.{OutputSpool}
use execution_provider.Core.Session.{Session}
use execution_provider.Core.Runtime.{Registry}
use execution_provider.Core.Runtime.Runs.{run_admitted}

pub run_admitted-closed :
    (limits : Limits) (request : RunRequest) (execution : Execution) (spool : Result OutputSpool)
    (known : Option ℕ) (t u : Registry) (s : Session) (retry : Bool) (cancelled : Option Time)
    → t.shutting_down ≡ true
    → run_admitted limits request execution spool known t ≡ some (ok (s, retry, cancelled), u)
    → retry ≡ true
unfolding run_admitted
run_admitted-closed limits request execution spool none t u s retry cancelled closed e =
    ground (arith, closed)
run_admitted-closed limits request execution spool (some sequence) t u s retry cancelled closed e =
    elim (Option-cases (get sequence t.entries)) [
      | inl missing ↦ ground arith
      | inr (entry, here) ↦ ground arith
    ]
