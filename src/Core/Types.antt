-- ===== src/Core/Types.antt =====
-- packages/process-execution-core/src/types.rs: the data that the supervisor's operations exchange.
-- Identifiers (`Uuid`) and times are numbers, paths are texts, and byte strings are lists of numbers.
use execution_provider.Prelude.{ℕ, String, Bool, true, false, Option, List}
use execution_provider.Prelude.Dict.{Dict}

abbrev pub Uuid : Type 0
Uuid = ℕ

abbrev pub Bytes : Type 0
Bytes = List ℕ

-- An `Instant` or a `SystemTime`, in nanoseconds, as a `Duration` is.
abbrev pub Time : Type 0
Time = ℕ

pub record ExecutionHandle : Type 0 where
  pub id : Uuid
  pub generation_id : Uuid

pub data ShellKind : Type 0 where
  sh bash zsh power_shell cmd : ShellKind

pub record Shell : Type 0 where
  pub executable : String
  pub kind : ShellKind

pub data Command : Type 0 where
  program : String → List String → Command
  shell : String → Option Shell → Bool → Command

pub data IoMode : Type 0 where
  pipes : Bool → IoMode
  pty : ℕ → ℕ → IoMode

pub data ExecutionState : Type 0 where
  starting running stopping finished : ExecutionState

abbrev pub is_finished : ExecutionState → Bool
is_finished ExecutionState.finished = true
is_finished _ = false

abbrev pub is_running : ExecutionState → Bool
is_running ExecutionState.running = true
is_running _ = false

pub data ExecutionResult : Type 0 where
  exited terminated timed_out : Option ℕ → Option String → ExecutionResult
  start_failed lost : String → ExecutionResult

pub record Execution : Type 0 where
  pub handle : ExecutionHandle
  pub command : Command
  pub resolved_shell : Option Shell
  pub cwd : String
  pub io : IoMode
  pub labels : Dict String String
  pub state : ExecutionState
  pub result : Option ExecutionResult
  pub created_at : Time
  pub started_at : Option Time
  pub finished_at : Option Time
  pub output_incomplete : Bool
  pub input_error : Option String

-- An opaque position within one execution's retained output and lifecycle.
pub record Cursor : Type 0 where
  pub handle : ExecutionHandle
  pub offset : ℕ
  pub revision : ℕ

pub data OutputStream : Type 0 where
  stdout stderr terminal : OutputStream

-- The source's field `data` is `bytes` here.
pub record OutputChunk : Type 0 where
  pub stream : OutputStream
  pub bytes : Bytes

pub data WaitMode : Type 0 where
  activity finished_or_timeout : WaitMode

pub record ObserveRequest : Type 0 where
  pub handle : ExecutionHandle
  pub after_cursor : Option Cursor
  pub wait_ms : ℕ
  pub return_when : WaitMode
  pub max_output_bytes : Option ℕ

pub data ReturnReason : Type 0 where
  activity finished wait_elapsed output_limit : ReturnReason

pub record Observation : Type 0 where
  pub execution : Execution
  pub output : List OutputChunk
  pub next_cursor : Cursor
  pub has_more : Bool
  pub output_gap : Bool
  pub return_reason : ReturnReason

pub record InputReceipt : Type 0 where
  pub input_id : String
  pub accepted_bytes : ℕ

pub data StdinState : Type 0 where
  opened closing closed : StdinState

abbrev pub is_opened : StdinState → Bool
is_opened StdinState.opened = true
is_opened _ = false

pub record RunOutputFile : Type 0 where
  pub artifact_id : Uuid
  pub path : String
  pub size_bytes : ℕ
  pub sha256 : String
  pub complete : Bool
  pub expires_at : Time

pub record RunResult : Type 0 where
  pub run_id : String
  pub execution : Execution
  pub output_file : RunOutputFile
  pub output : List OutputChunk
  pub output_truncated : Bool

pub data TerminateRunState : Type 0 where
  pending terminating finished : TerminateRunState

pub record TerminateRunReceipt : Type 0 where
  pub run_id : String
  pub state : TerminateRunState
  pub execution : Option Execution

-- A byte with the stream that it came from: the unit of captured output.
abbrev pub Output : Type 0
Output = List (OutputStream × ℕ)

pub record ShellSnapshotRequest : Type 0 where
  pub scope_id : String

pub record StartRequest : Type 0 where
  pub start_id : String
  pub command : Command
  pub cwd : Option String
  pub env : Dict String String
  pub shell_snapshot : Option ShellSnapshotRequest
  pub io : IoMode
  pub wait_ms : ℕ
  pub max_output_bytes : Option ℕ
  pub labels : Dict String String

pub record RunRequest : Type 0 where
  pub run_id : String
  pub command : Command
  pub cwd : Option String
  pub env : Dict String String
  pub shell_snapshot : Option ShellSnapshotRequest
  pub timeout_ms : Option ℕ
  pub max_output_bytes : Option ℕ
  pub labels : Dict String String

pub data StateFilter : Type 0 where
  active finished all : StateFilter

pub record PageCursor : Type 0 where
  pub generation_id : Uuid
  pub after : ℕ
  pub through : ℕ
  pub state : StateFilter
  pub labels : Dict String String

pub record ListRequest : Type 0 where
  pub state : StateFilter
  pub labels : Dict String String
  pub limit : ℕ
  pub page_cursor : Option PageCursor

pub record ExecutionPage : Type 0 where
  pub executions : List Execution
  pub next_page_cursor : Option PageCursor
