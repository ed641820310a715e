-- ===== src/Core/Session/Lifecycle.antt =====
-- The life of an execution: what its task, its output and input tasks, and its callers may do in any
-- order, and what can never be undone.
use execution_provider.Prelude.{
  ℕ, ◌≡◌, refl, ◌⊎◌, String, Bool, true, false, Option, none, some, arith, is_some, [], ◌∷◌,
}
use execution_provider.Prelude.Dict.{Dict}
use execution_provider.Core.Errors.{Error, Result, ok}
use execution_provider.Core.Types.{
  Bytes, Time, ExecutionState, ExecutionResult, InputReceipt, OutputStream, StdinState, Execution,
  IoMode,
}
use execution_provider.Core.Spool.{WriteOutcome}
use execution_provider.Core.Session.{
  Session, StopReason, Input, ExitStatus, terminate, write, close_input, finish, launch, root_exit,
  result_of, capture, receive, written, end_input, enqueue, is_pty, revised,
}

-- Where the execution's own task stands: before the spawn, awaiting the child, draining the output,
-- and done.
pub data Phase : Type 0 where
  spawning awaiting draining done : Phase

-- One step. The environment chooses times, outputs, answers and the order.
pub data Step (s : Session) : Phase → Phase → Session → Type 0 where
  terminates :
      {p : Phase} (now : Time) (grace : ℕ) (reason : StopReason)
      → Step s p p (terminate now grace reason s)
  writes :
      {p : Phase} {t : Session} (digest : Bytes → ℕ) (input_id : String) (data_bytes : Bytes)
      (receipt : InputReceipt)
      → write digest input_id data_bytes s ≡ ok (receipt, t)
      → Step s p p t
  closes :
      {p : Phase} {t : Session} (state : StdinState) → close_input s ≡ ok (state, t) → Step s p p t
  -- `interrupt_execution` only adds a receipt.
  interrupts :
      {p : Phase} (receipts : Dict String (Result Execution))
      → Step s p p (record s { interrupt_receipts = receipts })
  resizes :
      {p : Phase} (rows cols : ℕ)
      → is_pty s.execution.io ≡ true
      → Step s p p (record s {
        execution = record s.execution { io = IoMode.pty rows cols };
        journal = revised s.journal;
      })
  -- On Windows, a terminal is interrupted, or asked to stop, by Ctrl-C in its input.
  types_interrupt :
      {p : Phase} {t : Session}
      → is_pty s.execution.io ≡ true
      → enqueue (3 ∷ []) s ≡ ok t
      → Step s p p t
  spawn_fails :
      (digest : Bytes → String) (flushed : Option String) (now : Time) (message : String)
      → Step s Phase.spawning Phase.done
          (finish digest flushed now (ExecutionResult.start_failed message) s)
  cancelled :
      (digest : Bytes → String) (flushed : Option String) (now : Time)
      → Step s Phase.spawning Phase.done
          (finish digest flushed now (ExecutionResult.terminated none none) s)
  launches :
      (now : Time) (writer : Bool) → Step s Phase.spawning Phase.awaiting (launch now writer s)
  captures :
      {t : Session} (disk : Bytes → WriteOutcome) (stream : OutputStream) (data_bytes : Bytes)
      → capture disk stream data_bytes s ≡ some t
      → Step s Phase.awaiting Phase.awaiting t
  captures_late :
      {t : Session} (disk : Bytes → WriteOutcome) (stream : OutputStream) (data_bytes : Bytes)
      → capture disk stream data_bytes s ≡ some t
      → Step s Phase.draining Phase.draining t
  receives :
      {t : Session} (item : Input)
      → s.in_flight ≡ 0
      → receive s ≡ some (item, t)
      → Step s Phase.awaiting Phase.awaiting t
  writes_out : Step s Phase.awaiting Phase.awaiting (written s)
  ends_input : (failed : Option String) → Step s Phase.awaiting Phase.awaiting (end_input failed s)
  exits : Step s Phase.awaiting Phase.draining (root_exit s)
  drain_fails :
      Step s Phase.draining Phase.draining
        (record s { execution = record s.execution { output_incomplete = true } })
  finishes :
      (digest : Bytes → String) (flushed : Option String) (now : Time) (exit : ExitStatus)
      (failure : Option Error) (stopping : Bool)
      → Step s Phase.draining Phase.done
          (finish digest flushed now (result_of exit failure stopping s.stop_reason) s)

-- `starting` < `running` < `stopping` < `finished`.
abbrev pub rank : ExecutionState → ℕ
rank ExecutionState.starting = 0
rank ExecutionState.running = 1
rank ExecutionState.stopping = 2
rank ExecutionState.finished = 3

-- A stop is pending exactly in the state `stopping`; otherwise the state is `idle`.
abbrev Stops : ExecutionState → Session → Type 0
Stops idle s =
    ((s.execution.state ≡ idle) × (s.stop_deadline ≡ none))
    ⊎ ((s.execution.state ≡ ExecutionState.stopping) × (is_some s.stop_deadline ≡ true))

-- What the phase of the task says about the session.
abbrev pub IsCoherent : Phase → Session → Type 0
IsCoherent Phase.spawning s =
    Stops ExecutionState.starting s × (s.root_exited ≡ false) × (s.execution.result ≡ none)
IsCoherent Phase.awaiting s =
    Stops ExecutionState.running s
    × (s.root_exited ≡ false)
    × (s.execution.result ≡ none)
    × (s.launched ≡ true)
IsCoherent Phase.draining s =
    (s.execution.state ≡ ExecutionState.stopping)
    × (s.root_exited ≡ true)
    × (s.execution.result ≡ none)
    × (s.stdin ≡ StdinState.closed)
    × (s.launched ≡ true)
IsCoherent Phase.done s =
    (s.execution.state ≡ ExecutionState.finished)
    × (is_some s.execution.result ≡ true)
    × (is_some s.finished_at ≡ true)
    × (s.stdin ≡ StdinState.closed)
    × (s.launched ≡ true)

-- What a step that only concerns the input leaves alone.
pub record SameLife (s t : Session) : Type 0 where
  pub state : t.execution.state ≡ s.execution.state
  pub result : t.execution.result ≡ s.execution.result
  pub deadline : t.stop_deadline ≡ s.stop_deadline
  pub reason : t.stop_reason ≡ s.stop_reason
  pub root : t.root_exited ≡ s.root_exited
  pub launched : t.launched ≡ s.launched
  pub finished : t.finished_at ≡ s.finished_at
  pub stdin : (t.stdin ≡ s.stdin) ⊎ (s.stdin ≡ StdinState.opened) ⊎ (t.stdin ≡ StdinState.closed)

SameLife-IsCoherent : (p : Phase) (s t : Session) → SameLife s t → IsCoherent p s → IsCoherent p t
SameLife-IsCoherent Phase.spawning s t same c = ground (arith, same.state, same.deadline)
SameLife-IsCoherent _ s t same c = ground (arith, same.state, same.deadline)

pub write-SameLife :
    (s t : Session) (digest : Bytes → ℕ) (input_id : String) (data_bytes : Bytes)
    (receipt : InputReceipt)
    → write digest input_id data_bytes s ≡ ok (receipt, t)
    → SameLife s t
unfolding write
write-SameLife s t digest input_id data_bytes receipt e = ground arith

pub enqueue-SameLife :
    (s t : Session) (data_bytes : Bytes) → enqueue data_bytes s ≡ ok t → SameLife s t
unfolding enqueue
enqueue-SameLife s t data_bytes e = ground arith

pub interrupt-SameLife :
    (s : Session) (receipts : Dict String (Result Execution))
    → SameLife s (record s { interrupt_receipts = receipts })
interrupt-SameLife s receipts = ground arith

pub resize-SameLife :
    (s : Session) (rows cols : ℕ)
    → SameLife s (record s {
      execution = record s.execution { io = IoMode.pty rows cols };
      journal = revised s.journal;
    })
resize-SameLife s rows cols = ground arith

pub close_input-SameLife :
    (s t : Session) (state : StdinState) → close_input s ≡ ok (state, t) → SameLife s t
unfolding close_input
close_input-SameLife s t state e = ground arith

pub capture-SameLife :
    (s t : Session) (disk : Bytes → WriteOutcome) (stream : OutputStream) (data_bytes : Bytes)
    → capture disk stream data_bytes s ≡ some t
    → SameLife s t
unfolding capture
capture-SameLife s t disk stream data_bytes e = ground arith

pub receive-SameLife : (s t : Session) (item : Input) → receive s ≡ some (item, t) → SameLife s t
unfolding receive
receive-SameLife s t item e = ground arith

pub end_input-SameLife : (s : Session) (failed : Option String) → SameLife s (end_input failed s)
unfolding end_input
end_input-SameLife s failed = ground arith

terminate-IsCoherent :
    (p : Phase) (s : Session) (now : Time) (grace : ℕ) (reason : StopReason)
    → IsCoherent p s
    → IsCoherent p (terminate now grace reason s)
unfolding terminate
terminate-IsCoherent Phase.spawning s now grace reason c = ground arith
terminate-IsCoherent _ s now grace reason c = ground arith

finish-IsCoherent :
    (s : Session) (digest : Bytes → String) (flushed : Option String) (now : Time)
    (result : ExecutionResult)
    → IsCoherent Phase.done (finish digest flushed now result s)
unfolding finish
finish-IsCoherent s digest flushed now result = (refl, refl, refl, refl, refl)

-- Every step keeps the session coherent with the phase of its task: in particular the last step
-- always leaves a finished execution with a result.
pub Step-IsCoherent : {s t : Session} {p q : Phase} → Step s p q t → IsCoherent p s → IsCoherent q t
unfolding launch root_exit written
Step-IsCoherent {s} {p = p} (terminates now grace reason) c =
    terminate-IsCoherent p s now grace reason c
Step-IsCoherent {s} {t} {p = p} (writes digest input_id data_bytes receipt e) c =
    SameLife-IsCoherent p s t (write-SameLife s t digest input_id data_bytes receipt e) c
Step-IsCoherent {s} {t} {p = p} (closes state e) c =
    SameLife-IsCoherent p s t (close_input-SameLife s t state e) c
Step-IsCoherent {s} {p = p} (interrupts receipts) c =
    SameLife-IsCoherent p s _ (interrupt-SameLife s receipts) c
Step-IsCoherent {s} {p = p} (resizes rows cols terminal) c =
    SameLife-IsCoherent p s _ (resize-SameLife s rows cols) c
Step-IsCoherent {s} {t} {p = p} (types_interrupt terminal e) c =
    SameLife-IsCoherent p s t (enqueue-SameLife s t (3 ∷ []) e) c
Step-IsCoherent {s} (spawn_fails digest flushed now message) c =
    finish-IsCoherent s digest flushed now _
Step-IsCoherent {s} (cancelled digest flushed now) c = finish-IsCoherent s digest flushed now _
Step-IsCoherent (launches now writer) c = ground arith
Step-IsCoherent {s} {t} (captures disk stream data_bytes e) c =
    SameLife-IsCoherent Phase.awaiting s t (capture-SameLife s t disk stream data_bytes e) c
Step-IsCoherent {s} {t} (captures_late disk stream data_bytes e) c =
    SameLife-IsCoherent Phase.draining s t (capture-SameLife s t disk stream data_bytes e) c
Step-IsCoherent {s} {t} (receives item free e) c =
    SameLife-IsCoherent Phase.awaiting s t (receive-SameLife s t item e) c
Step-IsCoherent writes_out c = c
Step-IsCoherent {s} (ends_input failed) c =
    SameLife-IsCoherent Phase.awaiting s _ (end_input-SameLife s failed) c
Step-IsCoherent exits c = ground arith
Step-IsCoherent drain_fails c = c
Step-IsCoherent {s} (finishes digest flushed now exit failure stopping) c =
    finish-IsCoherent s digest flushed now _
