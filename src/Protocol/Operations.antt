-- ===== src/Protocol/Operations.antt =====
-- The operations of packages/process-execution-protocol/src/lib.rs with their parameters.
use execution_provider.Prelude.{ℕ, String, Bool, true, false, Option, none, some}
use execution_provider.Prelude.Dict.{Dict}
use execution_provider.Core.Errors.{Result, ok, err, invalid}
use execution_provider.Core.Files.{FilePrecondition, WriteFileMode}
use execution_provider.Core.Patch.{ApplyPatchRequest}
use execution_provider.Core.Types.{Command, ExecutionHandle, IoMode, ShellSnapshotRequest}

-- The mode on the wire, beside an optional precondition.
pub data WriteMode : Type 0 where
  conditional overwrite : WriteMode

pub record FilePathParams : Type 0 where
  pub cwd : Option String
  pub path : String

pub record ReadFileParams : Type 0 where
  pub cwd : Option String
  pub path : String
  pub max_bytes : Option ℕ

pub record WriteFileParams : Type 0 where
  pub mutation_id : String
  pub cwd : Option String
  pub path : String
  pub data_base64 : String
  pub create_parent_directories : Bool
  pub mode : WriteMode
  pub precondition : Option FilePrecondition

pub record RemoveFileParams : Type 0 where
  pub mutation_id : String
  pub cwd : Option String
  pub path : String
  pub precondition : FilePrecondition

pub record StartParams : Type 0 where
  pub start_id : String
  pub command : Command
  pub cwd : Option String
  pub env : Dict String String
  pub shell_snapshot : Option ShellSnapshotRequest
  pub io : IoMode
  pub wait_ms : ℕ
  pub max_output_bytes : Option ℕ
  pub labels : Dict String String

pub record RunParams : Type 0 where
  pub run_id : String
  pub command : Command
  pub cwd : Option String
  pub env : Dict String String
  pub shell_snapshot : Option ShellSnapshotRequest
  pub timeout_ms : Option ℕ
  pub max_output_bytes : Option ℕ
  pub labels : Dict String String

pub data WaitMode : Type 0 where
  activity finished_or_timeout : WaitMode

pub record ObserveParams : Type 0 where
  pub handle : ExecutionHandle
  pub after_cursor : Option String
  pub wait_ms : ℕ
  pub return_when : WaitMode
  pub max_output_bytes : Option ℕ

pub data StateFilter : Type 0 where
  active finished all : StateFilter

pub record ListParams : Type 0 where
  pub state : StateFilter
  pub labels : Dict String String
  pub limit : ℕ
  pub page_cursor : Option String

pub data Operation : Type 0 where
  info shutdown : Operation
  start : StartParams → Operation
  run : RunParams → Operation
  terminate_run : String → Option ℕ → Operation
  get_execution : ExecutionHandle → Operation
  observe : ObserveParams → Operation
  write_input : ExecutionHandle → String → String → Operation
  close_input : ExecutionHandle → Operation
  interrupt : ExecutionHandle → String → Operation
  terminate : ExecutionHandle → Option ℕ → Operation
  resize : ExecutionHandle → ℕ → ℕ → Operation
  list : ListParams → Operation
  get_file_metadata : FilePathParams → Operation
  read_file : ReadFileParams → Operation
  write_file : WriteFileParams → Operation
  remove_file : RemoveFileParams → Operation
  apply_patch : ApplyPatchRequest → Operation

-- `WriteFileParams::core_mode`, on the mode and the precondition.
unfoldable pub core_mode : WriteMode → Option FilePrecondition → Result WriteFileMode
core_mode WriteMode.conditional (some precondition) = ok (WriteFileMode.conditional precondition)
core_mode WriteMode.conditional none =
    err (invalid "conditional file write requires a precondition")
core_mode WriteMode.overwrite none = ok WriteFileMode.overwrite
core_mode WriteMode.overwrite (some precondition) =
    err (invalid "overwrite file write must not include a precondition")

abbrev pub is_shutdown : Operation → Bool
is_shutdown Operation.shutdown = true
is_shutdown _ = false

abbrev pub is_terminate_run : Operation → Bool
is_terminate_run (Operation.terminate_run run_id grace) = true
is_terminate_run _ = false
