-- ===== src/Core/Session.antt =====
-- packages/process-execution-core/src/session.rs, `Session`: one supervised execution. The fields of
-- the locked `Data` and those of `Session` are one record; the notifications that wake waiters carry
-- no data and are not modelled. The current time, the SHA-256 function and what the operating
-- system's control of the process answers are arguments. The input channel is a queue with a flag
-- that tells whether its receiver is alive; a queued item holds as many permits as it has bytes.
pub mod Lifecycle
pub mod Progress
pub mod Permits
pub mod Replay
mod Tests
use execution_provider.Prelude.{
  ℕ, zero, suc, ◌+◌, ◌-◌, String, Bool, true, false, ◌&&◌, ◌||◌, not, Option, none, some, List, [],
  ◌∷◌, ◌++◌, ltb, leb, eqb, if◌then◌else◌, length, is_empty, is_some, is_none, sum_by, ◌==◌,
  string_eq,
}
use execution_provider.Prelude.Dict.{Dict, get, insert}
use execution_provider.Core.Errors.{
  Error, ErrorCode, error, invalid, Result, ok, err, ◌>>=◌, ◌>>◌, fail_if, ok_or,
}
use execution_provider.Core.Config.{Limits, u32_max}
use execution_provider.Core.Types.{
  Uuid, Bytes, Time, Execution, ExecutionState, ExecutionResult, InputReceipt, IoMode, OutputChunk,
  OutputStream, RunResult, StdinState, is_finished, is_running, is_opened,
}
use execution_provider.Core.Journal.{Journal}
use execution_provider.Core.Journal
use execution_provider.Core.Spool.{OutputSpool, WriteOutcome}
use execution_provider.Core.Spool

pub data StopReason : Type 0 where
  explicit_termination timeout runtime_shutdown : StopReason

pub data Input : Type 0 where
  bytes : Bytes → Input
  close : Input

pub record Session : Type 0 where
  pub execution : Execution
  pub journal : Journal
  pub launched : Bool
  pub root_exited : Bool
  pub finished_at : Option Time
  pub stop_deadline : Option Time
  pub stop_reason : Option StopReason
  pub control : Bool
  pub stdin : StdinState
  pub input_tx : Bool
  pub input_receipts : Dict String (ℕ × InputReceipt)
  pub interrupt_receipts : Dict String (Result Execution)
  pub output_spool : Option OutputSpool
  pub input_capacity : ℕ
  pub queue : List Input
  pub receiver : Bool
  pub in_flight : ℕ
  pub limits : Limits

abbrev initial_stdin : IoMode → StdinState
initial_stdin (IoMode.pipes false) = StdinState.closed
initial_stdin _ = StdinState.opened

-- `Session::new`
unfoldable pub new : Execution → Limits → Option OutputSpool → Session
unfolding Journal.new
new execution limits output_spool = record {
  execution = execution;
  journal = Journal.new limits.max_retained_output_bytes;
  launched = false;
  root_exited = false;
  finished_at = none;
  stop_deadline = none;
  stop_reason = none;
  control = false;
  stdin = initial_stdin execution.io;
  input_tx = false;
  input_receipts = [];
  interrupt_receipts = [];
  output_spool = output_spool;
  input_capacity = limits.max_queued_input_bytes;
  queue = [];
  receiver = false;
  in_flight = 0;
  limits = limits;
}

abbrev with_state : Execution → ExecutionState → Execution
with_state e state = record e { state = state }

-- `data.journal.revision += 1`
abbrev pub revised : Journal → Journal
revised j = record j { revision = j.revision + 1 }

-- `Session::terminate`; the snapshot that it returns is the new state's execution.
unfoldable pub terminate : Time → ℕ → StopReason → Session → Session
terminate now grace reason s =
    if not (is_finished s.execution.state) && (not s.root_exited && is_none s.stop_deadline)
    then record s {
      stop_deadline = some (now + grace);
      stop_reason = some reason;
      execution = with_state s.execution ExecutionState.stopping;
      journal = revised s.journal;
    }
    else s

abbrev not_finished : Error
not_finished = error ErrorCode.invalid_state "run is not finished"

unfoldable pub run_result : Session → String → ℕ → Time → Result RunResult
run_result s run_id output_limit expires_at =
    if is_finished s.execution.state
    then elim s.output_spool [
      | none ↦ err (error ErrorCode.invalid_state "run has no output file")
      | some spool ↦
          let output = Spool.preview spool output_limit in
          let complete = not s.execution.output_incomplete in
          ok (record {
            run_id = run_id;
            execution = s.execution;
            output_file = Spool.output_file spool complete expires_at;
            output = output;
            output_truncated =
                not complete || ltb (sum_by (λ c. length c.bytes) output) spool.captured_bytes;
          })
    ]
    else err not_finished

abbrev pub stdin_closed : String → Error
stdin_closed message = error ErrorCode.stdin_closed message

-- `Session::enqueue`: a permit that was taken is given back when the send fails, so an error leaves
-- the session as it was.
unfoldable pub enqueue : Bytes → Session → Result Session
enqueue data_bytes s = do
  fail_if (ltb u32_max (length data_bytes))
      (error ErrorCode.resource_limit "input exceeds queue capacity")
  fail_if (ltb s.input_capacity (length data_bytes))
      (error ErrorCode.resource_limit "input queue is full")
  fail_if (not s.input_tx) (stdin_closed "stdin is closed")
  fail_if (not s.receiver) (stdin_closed "stdin is closed")
  ok (record s {
    input_capacity = s.input_capacity - length data_bytes;
    queue = s.queue ++ Input.bytes data_bytes ∷ [];
  })

abbrev pub receipt_limit : Error
receipt_limit = error ErrorCode.resource_limit "input receipt limit reached"

abbrev pub not_running : Error
not_running = error ErrorCode.invalid_state "execution is not running"

abbrev remember : String → ℕ → InputReceipt → Session → Session
remember input_id hash receipt s = record s {
  input_receipts = insert input_id (hash, receipt) s.input_receipts;
}

-- `write` for an `input_id` that has no receipt yet.
write_new : (Bytes → ℕ) → String → Bytes → Session → Result (InputReceipt × Session)
unfolding enqueue
write_new digest input_id data_bytes s =
    let receipt : InputReceipt = record {
      input_id = input_id;
      accepted_bytes = length data_bytes;
    } in
    let hash = digest data_bytes in
    let full = leb s.limits.max_input_receipts (length s.input_receipts) in
    if is_empty data_bytes
    then (do fail_if full receipt_limit; ok (receipt, remember input_id hash receipt s))
    else do
      fail_if (not (is_running s.execution.state)) not_running
      fail_if (not (is_opened s.stdin)) (stdin_closed "stdin is closing or closed")
      fail_if full receipt_limit
      s' ← enqueue data_bytes s
      ok (receipt, remember input_id hash receipt s')

abbrev pub input_conflict : Error
input_conflict = error ErrorCode.idempotency_conflict "input_id was used for different bytes"

-- `Session::write`
unfoldable pub write : (Bytes → ℕ) → String → Bytes → Session → Result (InputReceipt × Session)
unfolding write_new
write digest input_id data_bytes s =
    if input_id == ""
    then err (invalid "input_id is empty")
    else elim (get input_id s.input_receipts) [
      | some (previous_hash, receipt) ↦
          if eqb previous_hash (digest data_bytes) then ok (receipt, s) else err input_conflict
      | none ↦ write_new digest input_id data_bytes s
    ]

abbrev pub is_pty : IoMode → Bool
is_pty (IoMode.pty rows cols) = true
is_pty (IoMode.pipes stdin) = false

-- `Session::close_input`
unfoldable pub close_input : Session → Result (StdinState × Session)
close_input s = do
  fail_if (is_pty s.execution.io)
      (error ErrorCode.unsupported_operation "a terminal does not support pipe-style EOF")
  if is_opened s.stdin
      then (do
        fail_if (not s.input_tx) (stdin_closed "stdin is unavailable")
        fail_if (not s.receiver) (stdin_closed "stdin is closed")
        ok (
          StdinState.closing,
          record s { queue = s.queue ++ Input.close ∷ []; stdin = StdinState.closing },
        ))
      else ok (s.stdin, s)

-- `Session::finish`: `flushed` is the error of the last flush of the output file, if any.
unfoldable pub finish :
    (Bytes → String) → Option String → Time → ExecutionResult → Session → Session
finish digest flushed now result s =
    let spool : Option OutputSpool = elim s.output_spool [
      | none ↦ none
      | some spool ↦ some (Spool.finalize digest flushed spool)
    ] in
    let broken : Bool = elim spool [ none ↦ false | some spool ↦ is_some spool.error ] in
    record s {
      output_spool = spool;
      execution = record s.execution {
        output_incomplete = if broken then true else s.execution.output_incomplete;
        state = ExecutionState.finished;
        result = some result;
        finished_at = some now;
      };
      finished_at = some now;
      launched = true;
      stdin = StdinState.closed;
      input_tx = false;
      control = false;
      journal = revised s.journal;
    }

-- In `run`: the block after a successful `backend::spawn`; the input task and its receiver start
-- with the writer.
unfoldable pub launch : Time → Bool → Session → Session
launch now writer s = record s {
  control = true;
  input_tx = writer;
  receiver = writer;
  launched = true;
  execution = record s.execution {
    state = if is_none s.stop_deadline then ExecutionState.running else s.execution.state;
    started_at = some now;
  };
  journal = revised s.journal;
}

abbrev pub permits : Input → ℕ
permits (Input.bytes data_bytes) = length data_bytes
permits Input.close = 0

-- In `run`: the block after the loop, when the direct child has exited. The input task is aborted
-- after it, which drops the queue and gives its permits back.
unfoldable pub root_exit : Session → Session
root_exit s = record s {
  root_exited = true;
  execution = with_state s.execution ExecutionState.stopping;
  journal = revised s.journal;
  stdin = StdinState.closed;
  input_tx = false;
  receiver = false;
  input_capacity = s.input_capacity + sum_by permits s.queue + s.in_flight;
  queue = [];
  in_flight = 0;
}

-- The answer of the child process when its exit was awaited.
pub data ExitStatus : Type 0 where
  status : Option ℕ → Option String → ExitStatus
  unknown : String → ExitStatus

abbrev is_timeout : Option StopReason → Bool
is_timeout (some StopReason.timeout) = true
is_timeout _ = false

-- In `run`: the result, from the exit status, a failure of the control calls, whether the process was
-- being stopped, and the reason for that.
unfoldable pub result_of : ExitStatus → Option Error → Bool → Option StopReason → ExecutionResult
result_of _ (some failure) stopping reason = ExecutionResult.lost failure.message
result_of (ExitStatus.unknown message) none stopping reason = ExecutionResult.lost message
result_of (ExitStatus.status code signal) none stopping reason =
    if stopping && is_timeout reason
    then ExecutionResult.timed_out code signal
    else if stopping
    then ExecutionResult.terminated code signal
    else ExecutionResult.exited code signal

-- In `read_output`: a chunk of output; `none` is a panic of the journal or the spool.
unfoldable pub capture : (Bytes → WriteOutcome) → OutputStream → Bytes → Session → Option Session
capture disk stream data_bytes s = elim (Journal.append s.journal stream data_bytes) [
  | none ↦ none
  | some journal ↦ elim s.output_spool [
    | none ↦ some (record s { journal = journal })
    | some spool ↦ elim (Spool.append disk spool stream data_bytes) [
      | none ↦ none
      | some spool' ↦ some (record s {
        journal = journal;
        output_spool = some spool';
        execution = record s.execution {
          output_incomplete = if is_some spool'.error then true else s.execution.output_incomplete;
        };
      })
    ]
  ]
]

-- In `write_input`: the task takes the first item of the queue, and drops it after it was written.
unfoldable pub receive : Session → Option (Input × Session)
receive s = elim s.queue [
  | [] ↦ none
  | item ∷ rest ↦ some (item, record s { queue = rest; in_flight = permits item })
]

unfoldable pub written : Session → Session
written s = record s { input_capacity = s.input_capacity + s.in_flight; in_flight = 0 }

-- In `write_input`: the end of the task, which drops the receiver with what is still queued.
unfoldable pub end_input : Option String → Session → Session
end_input failed s =
    let ended = record s {
      stdin = StdinState.closed;
      input_tx = false;
      receiver = false;
      input_capacity = s.input_capacity + sum_by permits s.queue + s.in_flight;
      queue = [];
      in_flight = 0;
    } in
    elim failed [
      | none ↦ ended
      | some message ↦ record ended {
        execution = record s.execution { input_error = some message };
        journal = revised s.journal;
      }
    ]
