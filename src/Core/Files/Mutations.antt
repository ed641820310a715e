-- ===== src/Core/Files/Mutations.antt =====
-- packages/process-execution-core/src/filesystem.rs and filesystem/patch.rs: the operations on files,
-- with the registry of mutations that answers a repeated request. A request that fails before it is
-- admitted leaves the registry alone. Panics of the blocking tasks are left out.
pub mod Replay
pub mod Histories
use execution_provider.Prelude.{
  ℕ, ◌+◌, ◌*◌, Bool, true, false, ◌||◌, not, Option, none, some, List, [], ◌∷◌, leb, ltb, length,
  min, sum_by, if◌then◌else◌,
}
use execution_provider.Prelude.Text.{Text, codes, same_text, size, text_eq}
use execution_provider.Prelude.Dict.{Dict, get, insert}
use execution_provider.Core.Errors.{
  Error, Result, ok, err, error, ErrorCode, invalid, fail_if, ok_or, ◌>>=◌, ◌>>◌,
}
use execution_provider.Core.Types.{Bytes}
use execution_provider.Core.Config.{Limits, max_file_bytes}
use execution_provider.Core.Files.{
  FilePath, FilePathRequest, ReadFileRequest, WriteFileRequest, RemoveFileRequest, FilePrecondition,
  WriteFileMode, FileMetadata, ReadFileResult, WriteFileReceipt, RemoveFileReceipt, Os,
}
use execution_provider.Core.Files.Access.{
  metadata, read_file_at, file_limit, resolve_file_path, validate_mutation_id,
  validate_precondition,
}
use execution_provider.Core.Files.Writing.{write_file_at, remove_file_at}
use execution_provider.Core.Patch.{ApplyPatchRequest, PatchInput, TextEdit, max_patch_bytes}
use execution_provider.Core.Patch.Receipts.{PatchReceipt}
use execution_provider.Core.Patch.Execute.{execute}

pub data MutationFingerprint : Type 0 where
  write : FilePath → Text → Bool → WriteFileMode → MutationFingerprint
  remove : FilePath → FilePrecondition → MutationFingerprint
  patch : Text → MutationFingerprint

abbrev pub same_bool : Bool → Bool → Bool
same_bool true b = b
same_bool false b = not b

abbrev pub same_precondition : FilePrecondition → FilePrecondition → Bool
same_precondition FilePrecondition.missing FilePrecondition.missing = true
same_precondition FilePrecondition.missing (FilePrecondition.sha256 b) = false
same_precondition (FilePrecondition.sha256 a) FilePrecondition.missing = false
same_precondition (FilePrecondition.sha256 a) (FilePrecondition.sha256 b) = same_text a b

abbrev pub same_mode : WriteFileMode → WriteFileMode → Bool
same_mode (WriteFileMode.conditional p) (WriteFileMode.conditional q) = same_precondition p q
same_mode (WriteFileMode.conditional p) WriteFileMode.overwrite = false
same_mode WriteFileMode.overwrite (WriteFileMode.conditional q) = false
same_mode WriteFileMode.overwrite WriteFileMode.overwrite = true

-- The derived `PartialEq` of `MutationFingerprint`.
abbrev pub same_fingerprint : MutationFingerprint → MutationFingerprint → Bool
same_fingerprint (MutationFingerprint.write p s c m) (MutationFingerprint.write q t d n) =
    if same_text p q
    then (if same_text s t then (if same_bool c d then same_mode m n else false) else false)
    else false
same_fingerprint (MutationFingerprint.remove p a) (MutationFingerprint.remove q b) =
    if same_text p q then same_precondition a b else false
same_fingerprint (MutationFingerprint.patch s) (MutationFingerprint.patch t) = same_text s t
same_fingerprint _ _ = false

pub data MutationOutcome : Type 0 where
  write : Result WriteFileReceipt → MutationOutcome
  remove : Result RemoveFileReceipt → MutationOutcome
  patch : PatchReceipt → MutationOutcome

-- `FileMutationRegistry`
abbrev pub Registry : Type 0
Registry = Dict Text (MutationFingerprint × MutationOutcome)

unfoldable pub idempotency_conflict : Error
idempotency_conflict =
    error ErrorCode.idempotency_conflict "mutation_id was used for different arguments"

unfoldable pub ensure_receipt_capacity : Registry → ℕ → Result (Unit {0})
ensure_receipt_capacity registry maximum =
    fail_if (leb maximum (length registry))
      (error ErrorCode.resource_limit "file mutation receipt limit reached")

-- What the operations read of the runtime.
pub record FileHost : Type 0 where
  pub cwd : FilePath
  pub limits : Limits
  pub is_shutdown : Bool

unfoldable pub ensure_available : FileHost → Result (Unit {0})
ensure_available host =
    fail_if host.is_shutdown (error ErrorCode.unavailable "runtime is shutting down")

abbrev pub write_outcome : MutationOutcome → Result WriteFileReceipt
write_outcome (MutationOutcome.write result) = result
write_outcome _ = err idempotency_conflict

abbrev pub remove_outcome : MutationOutcome → Result RemoveFileReceipt
remove_outcome (MutationOutcome.remove result) = result
remove_outcome _ = err idempotency_conflict

abbrev pub patch_outcome : MutationOutcome → Result PatchReceipt
patch_outcome (MutationOutcome.patch receipt) = ok receipt
patch_outcome _ = err idempotency_conflict

-- `raw_bytes`; a sum that saturates is above the limit all the same.
abbrev pub raw_bytes : PatchInput → ℕ
raw_bytes (PatchInput.codex text) = size text
raw_bytes (PatchInput.text_replacements files) =
    sum_by (λ f. size f.path + sum_by (λ e. size e.old_text + size e.new_text) f.edits) files

-- What an operation answers, with the registry and the file system behind it.
abbrev pub Answer : Type 0 → Type 0 → Type 0
Answer Disk A = Result A × Registry × Disk

-- One mutation in the calls' common order: a request that is known is answered from the registry if it
-- is the same one; a new one is admitted, carried out and recorded.
pub record Mutation (Disk A : Type 0) : Type 0 where
  pub id : Text
  pub fingerprint : MutationFingerprint
  pub admit : Registry → Result (Unit {0})
  pub replay : MutationOutcome → Result A
  pub run : Disk → Result A × Disk
  pub outcome : Result A → MutationOutcome

module _ {Disk A : Type 0} where
  abbrev pub carry_out : Mutation Disk A → Registry → Disk → Answer Disk A
  carry_out m registry disk =
      let ended = m.run disk in
      (ended.0, insert m.id (m.fingerprint, m.outcome ended.0) registry, ended.1)

  abbrev pub answer_known :
      Mutation Disk A → MutationFingerprint × MutationOutcome → Registry → Disk → Answer Disk A
  answer_known m entry registry disk = (
    (if same_fingerprint entry.0 m.fingerprint then m.replay entry.1 else err idempotency_conflict),
    registry,
    disk,
  )

  unfoldable pub mutate : Mutation Disk A → Registry → Disk → Answer Disk A
  mutate m registry disk = elim (get m.id registry) [
    | some entry ↦ answer_known m entry registry disk
    | none ↦ elim (m.admit registry) [
      | err e ↦ (err e, registry, disk)
      | ok admitted ↦ carry_out m registry disk
    ]
  ]

  -- A request that is refused before the registry is locked.
  unfoldable pub submit : Result (Mutation Disk A) → Registry → Disk → Answer Disk A
  unfolding mutate
  submit (err e) registry disk = (err e, registry, disk)
  submit (ok m) registry disk = mutate m registry disk

module _ {Disk : Type 0} (os : Os Disk) (host : FileHost) where
  unfoldable pub get_file_metadata : FilePathRequest → Disk → Result FileMetadata
  unfolding ensure_available
  get_file_metadata request disk = do
    ensure_available host
    path ← resolve_file_path os host.cwd request.cwd request.path
    metadata os disk path

  unfoldable pub read_file : ReadFileRequest → Disk → Result ReadFileResult
  unfolding ensure_available
  read_file request disk = do
    ensure_available host
    limit ← file_limit request.max_bytes host.limits.max_file_read_bytes
    path ← resolve_file_path os host.cwd request.cwd request.path
    read_file_at os disk path limit

  abbrev pub validate_mode : WriteFileMode → Result (Unit {0})
  validate_mode (WriteFileMode.conditional precondition) = validate_precondition precondition
  validate_mode WriteFileMode.overwrite = ok tt

  abbrev pub has_capacity : Registry → Result (Unit {0})
  has_capacity registry = ensure_receipt_capacity registry host.limits.max_file_mutation_receipts

  abbrev pub write_mutation : WriteFileRequest → FilePath → Mutation Disk WriteFileReceipt
  write_mutation request path = record {
    id = request.mutation_id;
    fingerprint =
        MutationFingerprint.write path (os.sha256 request.bytes) request.create_parent_directories
          request.mode;
    admit = has_capacity;
    replay = write_outcome;
    run =
        write_file_at os request.mutation_id path request.bytes request.create_parent_directories
          request.mode host.limits.max_file_read_bytes;
    outcome = MutationOutcome.write;
  }

  -- The checks before the registry is locked.
  unfoldable pub check_write : WriteFileRequest → Result FilePath
  unfolding ensure_available
  check_write request = do
    ensure_available host
    validate_mutation_id request.mutation_id
    fail_if (ltb host.limits.max_file_write_bytes (length request.bytes))
        (error ErrorCode.resource_limit "file contents exceed the configured write limit")
    validate_mode request.mode
    resolve_file_path os host.cwd request.cwd request.path

  unfoldable pub write_file : WriteFileRequest → Registry → Disk → Answer Disk WriteFileReceipt
  unfolding check_write submit
  write_file request registry disk =
      submit (check_write request >>= λ path. ok (write_mutation request path)) registry disk

  abbrev pub remove_mutation : RemoveFileRequest → FilePath → Mutation Disk RemoveFileReceipt
  remove_mutation request path = record {
    id = request.mutation_id;
    fingerprint = MutationFingerprint.remove path request.precondition;
    admit = has_capacity;
    replay = remove_outcome;
    run =
        remove_file_at os request.mutation_id path request.precondition
          host.limits.max_file_read_bytes;
    outcome = MutationOutcome.remove;
  }

  unfoldable pub check_remove : RemoveFileRequest → Result FilePath
  unfolding ensure_available
  check_remove request = do
    ensure_available host
    validate_mutation_id request.mutation_id
    validate_precondition request.precondition
    resolve_file_path os host.cwd request.cwd request.path

  unfoldable pub remove_file : RemoveFileRequest → Registry → Disk → Answer Disk RemoveFileReceipt
  unfolding check_remove submit
  remove_file request registry disk =
      submit (check_remove request >>= λ path. ok (remove_mutation request path)) registry disk

  abbrev pub patch_limit : ℕ
  patch_limit =
      min (min host.limits.max_file_read_bytes host.limits.max_file_write_bytes) max_file_bytes

  abbrev pub admit_patch : Bytes → Registry → Result (Unit {0})
  admit_patch encoded registry =
      fail_if (ltb (max_patch_bytes * 2) (length encoded))
        (error ErrorCode.resource_limit "serialized patch request exceeds 4 MiB")
      >> has_capacity registry

  abbrev pub run_patch :
      (PatchReceipt → Option ℕ) → ApplyPatchRequest → FilePath → Disk → Result PatchReceipt × Disk
  run_patch receipt_size request cwd disk =
      let ended = execute os receipt_size request cwd patch_limit disk in (ok ended.0, ended.1)

  -- A patch has a receipt in any case.
  abbrev pub patch_result : Result PatchReceipt → MutationOutcome
  patch_result (ok receipt) = MutationOutcome.patch receipt
  patch_result (err e) = MutationOutcome.write (err e)

  abbrev pub patch_mutation :
      (PatchReceipt → Option ℕ) → ApplyPatchRequest → Bytes → FilePath → Mutation Disk PatchReceipt
  patch_mutation receipt_size request encoded cwd = record {
    id = request.mutation_id;
    fingerprint = MutationFingerprint.patch (os.sha256 encoded);
    admit = admit_patch encoded;
    replay = patch_outcome;
    run = run_patch receipt_size request cwd;
    outcome = patch_result;
  }

  -- The working directory, and the request as JSON, which `encode` writes.
  unfoldable pub check_patch :
      (ApplyPatchRequest → Option Bytes) → ApplyPatchRequest → Result (FilePath × Bytes)
  unfolding ensure_available
  check_patch encode request = do
    ensure_available host
    validate_mutation_id request.mutation_id
    fail_if (ltb (max_patch_bytes * 2) (raw_bytes request.patch))
        (error ErrorCode.resource_limit "raw patch request exceeds 4 MiB")
    cwd ← resolve_file_path os host.cwd request.cwd (codes ".")
    encoded ← ok_or (encode request) (invalid "the request cannot be encoded")
    ok (cwd, encoded)

  -- `receipt_size` is the length of a receipt as JSON.
  unfoldable pub apply_patch :
      (ApplyPatchRequest → Option Bytes)
      → (PatchReceipt → Option ℕ)
      → ApplyPatchRequest
      → Registry
      → Disk
      → Answer Disk PatchReceipt
  unfolding check_patch submit
  apply_patch encode receipt_size request registry disk =
      submit
        (check_patch encode request >>= λ (cwd, encoded).
          ok (patch_mutation receipt_size request encoded cwd))
        registry disk
