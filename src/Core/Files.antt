-- ===== src/Core/Files.antt =====
-- packages/process-execution-core/src/filesystem.rs: the data of the file operations, and the calls of
-- the operating system that they make. Paths, digests and identifiers of mutations are texts of code
-- points; a file system is any type with the calls below.
pub mod Access
pub mod Writing
pub mod Mutations
pub mod Memory
mod Tests
use execution_provider.Prelude.{ℕ, String, Bool, true, false, Option, List, if◌then◌else◌}
use execution_provider.Prelude.Text.{Text}
use execution_provider.Prelude.Dict.{Dict}
use execution_provider.Core.Errors.{Error, Result, ok, err, error, ErrorCode}
use execution_provider.Core.Types.{Bytes}

abbrev pub FilePath : Type 0
FilePath = Text

pub record FilePathRequest : Type 0 where
  pub cwd : Option FilePath
  pub path : FilePath

pub record ReadFileRequest : Type 0 where
  pub cwd : Option FilePath
  pub path : FilePath
  pub max_bytes : Option ℕ

pub data FilePrecondition : Type 0 where
  missing : FilePrecondition
  sha256 : Text → FilePrecondition

pub data WriteFileMode : Type 0 where
  conditional : FilePrecondition → WriteFileMode
  overwrite : WriteFileMode

-- The source's field `data` is `bytes` here.
pub record WriteFileRequest : Type 0 where
  pub mutation_id : Text
  pub cwd : Option FilePath
  pub path : FilePath
  pub bytes : Bytes
  pub create_parent_directories : Bool
  pub mode : WriteFileMode

pub record RemoveFileRequest : Type 0 where
  pub mutation_id : Text
  pub cwd : Option FilePath
  pub path : FilePath
  pub precondition : FilePrecondition

-- Milliseconds since the epoch or before it.
pub data Moment : Type 0 where
  since before : ℕ → Moment

pub record FileMetadata : Type 0 where
  pub is_file : Bool
  pub is_directory : Bool
  pub is_symlink : Bool
  pub size : ℕ
  pub modified_at_ms : Option Moment

pub record ReadFileResult : Type 0 where
  pub path : FilePath
  pub metadata : FileMetadata
  pub bytes : Bytes
  pub sha256 : Text

pub data MutationDisposition : Type 0 where
  applied already_applied : MutationDisposition

pub record WriteFileReceipt : Type 0 where
  pub mutation_id : Text
  pub path : FilePath
  pub sha256 : Text
  pub bytes_written : ℕ
  pub disposition : MutationDisposition

pub record RemoveFileReceipt : Type 0 where
  pub mutation_id : Text
  pub path : FilePath
  pub disposition : MutationDisposition

-- What a failed call says: whether its kind is `NotFound`, and its message.
pub record IoError : Type 0 where
  pub is_not_found : Bool
  pub message : String

pub data Io {ℓ} (A : Type ℓ) : Type ℓ where
  good : A → Io A
  bad : IoError → Io A

unfoldable pub map_io : IoError → Error
map_io e = error (if e.is_not_found then ErrorCode.not_found else ErrorCode.io) e.message

-- `.map_err(map_io)`
abbrev pub map_err {ℓ} : {A : Type ℓ} → Io A → Result A
map_err (good a) = ok a
map_err (bad e) = err (map_io e)

-- `fs::Metadata`
pub record RawMetadata : Type 0 where
  pub is_file : Bool
  pub is_directory : Bool
  pub is_symlink : Bool
  pub size : ℕ
  pub modified : Option Moment

-- `std::path::Component`, of which only these two are told from the others.
pub data Component : Type 0 where
  parent_dir cur_dir : Component
  other : FilePath → Component

-- The calls of `std::fs`, `std::path`, `std::str`, `uuid` and `sha2`. A call that writes answers together with the
-- file system that it leaves. `read_up_to` opens a file and reads at most so many bytes.
pub record Os (Disk : Type 0) : Type 0 where
  pub symlink_metadata : Disk → FilePath → Io RawMetadata
  pub metadata : Disk → FilePath → Io RawMetadata
  pub read_up_to : Disk → FilePath → ℕ → Io Bytes
  pub read_link : Disk → FilePath → Io FilePath
  pub create_dir_all : FilePath → Disk → Io (Unit {0}) × Disk
  pub create_new : FilePath → Disk → Io (Unit {0}) × Disk
  pub write_all : FilePath → Bytes → Disk → Io (Unit {0}) × Disk
  pub sync_all : FilePath → Disk → Io (Unit {0}) × Disk
  pub set_permissions : FilePath → RawMetadata → Disk → Io (Unit {0}) × Disk
  pub rename : FilePath → FilePath → Disk → Io (Unit {0}) × Disk
  pub remove_file : FilePath → Disk → Io (Unit {0}) × Disk
  pub new_uuid : Disk → Text
  pub current_dir : Disk → Io FilePath
  pub canonicalize : Disk → FilePath → Io FilePath
  pub exists : Disk → FilePath → Bool
  pub components : FilePath → List Component
  pub pop : FilePath → FilePath
  pub is_absolute : FilePath → Bool
  pub join : FilePath → FilePath → FilePath
  pub parent : FilePath → Option FilePath
  pub file_name : FilePath → Option Text
  pub sha256 : Bytes → Text
  pub from_utf8 : Bytes → Option Text
  pub into_bytes : Text → Bytes
