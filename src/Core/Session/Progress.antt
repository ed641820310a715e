-- ===== src/Core/Session/Progress.antt =====
-- What no step of an execution ever undoes, over any sequence of steps.
use execution_provider.Prelude.{
  ℕ, String, ◌≤◌, ◌≡◌, refl, ◌⊎◌, inl, inr, true, false, Option, none, arith, [], ◌∷◌,
}
use execution_provider.Core.Types.{Bytes, Time, Execution, ExecutionState, ExecutionResult}
use execution_provider.Core.Config.{Limits}
use execution_provider.Core.Spool.{OutputSpool}
use execution_provider.Core.Session.{
  Session, StopReason, new, terminate, finish, launch, root_exit, written,
}
use execution_provider.Core.Session.Lifecycle.{
  Phase, Step, terminates, writes, closes, spawn_fails, cancelled, launches, captures,
  captures_late, receives, writes_out, ends_input, exits, drain_fails, finishes, rank, IsCoherent,
  SameLife, interrupts, resizes, types_interrupt, interrupt-SameLife, resize-SameLife,
  enqueue-SameLife, write-SameLife, close_input-SameLife, capture-SameLife, receive-SameLife,
  end_input-SameLife, Step-IsCoherent,
}

-- From `s` to `t` the state has not gone back, a stop that was requested has kept its first deadline
-- and reason, and a result that was there is still the same.
pub record Advances (s t : Session) : Type 0 where
  pub state : rank s.execution.state ≤ rank t.execution.state
  pub stop :
      (s.stop_deadline ≡ none)
      ⊎ ((t.stop_deadline ≡ s.stop_deadline) × (t.stop_reason ≡ s.stop_reason))
  pub result : (s.execution.result ≡ none) ⊎ (t.execution.result ≡ s.execution.result)
  pub launched : (s.launched ≡ false) ⊎ (t.launched ≡ true)

Advances-refl : (s : Session) → Advances s s
Advances-refl s = ground arith

Advances-trans : (s t u : Session) → Advances s t → Advances t u → Advances s u
Advances-trans s t u a b =
    ground (arith, a.stop, b.stop, a.result, b.result, a.launched, b.launched)

SameLife-Advances : (s t : Session) → SameLife s t → Advances s t
SameLife-Advances s t same =
    ground (arith, same.state, same.result, same.deadline, same.reason, same.launched)

terminate-Advances :
    (s : Session) (now : Time) (grace : ℕ) (reason : StopReason)
    → Advances s (terminate now grace reason s)
unfolding terminate
terminate-Advances s now grace reason = ground arith

rank_le : (state : ExecutionState) → rank state ≤ 3
rank_le state = ground arith

finish-Advances :
    (s : Session) (digest : Bytes → String) (flushed : Option String) (now : Time)
    (result : ExecutionResult)
    → s.execution.result ≡ none
    → Advances s (finish digest flushed now result s)
unfolding finish
finish-Advances s digest flushed now result fresh = record {
  state = rank_le s.execution.state;
  stop = inr (refl, refl);
  result = inl fresh;
  launched = inr refl;
}

-- A step never goes back.
Step-Advances : {s t : Session} {p q : Phase} → Step s p q t → IsCoherent p s → Advances s t
unfolding launch root_exit written
Step-Advances {s} (terminates now grace reason) c = terminate-Advances s now grace reason
Step-Advances {s} {t} (writes digest input_id data_bytes receipt e) c =
    SameLife-Advances s t (write-SameLife s t digest input_id data_bytes receipt e)
Step-Advances {s} {t} (closes state e) c = SameLife-Advances s t (close_input-SameLife s t state e)
Step-Advances {s} (interrupts receipts) c = SameLife-Advances s _ (interrupt-SameLife s receipts)
Step-Advances {s} (resizes rows cols terminal) c =
    SameLife-Advances s _ (resize-SameLife s rows cols)
Step-Advances {s} {t} (types_interrupt terminal e) c =
    SameLife-Advances s t (enqueue-SameLife s t (3 ∷ []) e)
Step-Advances {s} (spawn_fails digest flushed now message) c =
    finish-Advances s digest flushed now _ c.2
Step-Advances {s} (cancelled digest flushed now) c = finish-Advances s digest flushed now _ c.2
Step-Advances (launches now writer) c = ground arith
Step-Advances {s} {t} (captures disk stream data_bytes e) c =
    SameLife-Advances s t (capture-SameLife s t disk stream data_bytes e)
Step-Advances {s} {t} (captures_late disk stream data_bytes e) c =
    SameLife-Advances s t (capture-SameLife s t disk stream data_bytes e)
Step-Advances {s} {t} (receives item free e) c = SameLife-Advances s t (receive-SameLife s t item e)
Step-Advances writes_out c = ground arith
Step-Advances {s} (ends_input failed) c = SameLife-Advances s _ (end_input-SameLife s failed)
Step-Advances exits c = ground arith
Step-Advances {s} drain_fails c = ground arith
Step-Advances {s} (finishes digest flushed now exit failure stopping) c =
    finish-Advances s digest flushed now _ c.2

-- Any number of steps.
pub data Steps (s : Session) (p : Phase) : Phase → Session → Type 0 where
  none_yet : Steps s p p s
  then_one : {t u : Session} {q r : Phase} → Steps s p q t → Step t q r u → Steps s p r u

-- From a coherent session on, over any sequence of terminations, interrupts, resizes, writes, closings
-- of input, captured output and steps of the execution's own tasks: the phase and the session stay coherent, the state
-- only goes forward, the first stop request fixes deadline and reason, and a result is never replaced.
pub Steps-Advances :
    {s : Session} {p : Phase} {t : Session} {q : Phase}
    → IsCoherent p s
    → Steps s p q t
    → IsCoherent q t × Advances s t
Steps-Advances {s} c none_yet = (c, Advances-refl s)
Steps-Advances {s} c (then_one {t} {u} steps step) =
    let (c', a) = Steps-Advances c steps in
    (Step-IsCoherent step c', Advances-trans s t u a (Step-Advances step c'))

-- A new session is coherent.
pub new-IsCoherent :
    (execution : Execution) (limits : Limits) (spool : Option OutputSpool)
    → execution.state ≡ ExecutionState.starting
    → execution.result ≡ none
    → IsCoherent Phase.spawning (new execution limits spool)
unfolding new
new-IsCoherent execution limits spool started fresh = (inl (started, refl), refl, fresh)
