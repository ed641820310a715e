-- ===== src/Core/Files/Writing.antt =====
-- packages/process-execution-core/src/filesystem.rs: `write_file_at` and `remove_file_at`. A call of the
-- operating system takes the file system and answers with the one it leaves.
pub mod Atomic
pub mod Contents
use execution_provider.Prelude.{
  ℕ, Bool, true, false, Option, none, some, ◌++◌, length, is_empty, unwrap_or, if◌then◌else◌,
}
use execution_provider.Prelude.Text.{Text, codes, same_text}
use execution_provider.Core.Errors.{Result, ok, err, invalid, ok_or}
use execution_provider.Core.Types.{Bytes}
use execution_provider.Core.Files.{
  FilePath, FilePrecondition, WriteFileMode, WriteFileReceipt, RemoveFileReceipt,
  MutationDisposition, Io, good, bad, map_err, RawMetadata, Os,
}
use execution_provider.Core.Files.Access.{
  existing_hash, readable_existing_hash, follow_final_symlinks, check_precondition,
}

-- Fallible code that may change the file system: an early return keeps what was changed before.
abbrev pub Action : Type 0 → Type 0 → Type 0
Action Disk A = Disk → Result A × Disk

module _ {Disk : Type 0} where
  abbrev pub after : {A B : Type 0} → Result A × Disk → (A → Action Disk B) → Result B × Disk
  after (ok a, disk) next = next a disk
  after (err e, disk) next = (err e, disk)

  infixl 5 ◌>>=◌ ◌>>◌
  abbrev pub ◌>>=◌ : {A B : Type 0} → Action Disk A → (A → Action Disk B) → Action Disk B
  (m >>= next) disk = after (m disk) next

  abbrev pub ◌>>◌ : {B : Type 0} → Action Disk (Unit {0}) → Action Disk B → Action Disk B
  (m >> rest) = m >>= λ done. rest

  abbrev pub give : {A : Type 0} → Result A → Action Disk A
  give r disk = (r, disk)

  -- Code that only looks at the file system.
  abbrev pub look : {A : Type 0} → (Disk → Result A) → Action Disk A
  look f disk = (f disk, disk)

  -- A call of the operating system, under `map_err(map_io)?`.
  abbrev pub call : {A : Type 0} → (Disk → Io A × Disk) → Action Disk A
  call f disk = (map_err (f disk).0, (f disk).1)

module _ {Disk : Type 0} (os : Os Disk) where
  abbrev pub write_target : WriteFileMode → FilePath → Disk → Result FilePath
  write_target (WriteFileMode.conditional precondition) path disk = ok path
  write_target WriteFileMode.overwrite path disk = follow_final_symlinks os disk path

  abbrev pub present_hash : WriteFileMode → FilePath → ℕ → Disk → Result (Option Text)
  present_hash (WriteFileMode.conditional precondition) target limit disk =
      existing_hash os disk target limit
  present_hash WriteFileMode.overwrite target limit disk =
      readable_existing_hash os disk target limit

  abbrev pub is_desired : Option Text → Text → Bool
  is_desired none desired = false
  is_desired (some existing) desired = same_text existing desired

  abbrev pub check_mode : WriteFileMode → Option Text → Result (Unit {0})
  check_mode (WriteFileMode.conditional precondition) existing =
      check_precondition existing precondition
  check_mode WriteFileMode.overwrite existing = ok tt

  -- The check right before the replacement.
  abbrev pub check_again : WriteFileMode → FilePath → ℕ → Disk → Result (Unit {0})
  check_again (WriteFileMode.conditional precondition) target limit disk =
      elim (existing_hash os disk target limit) as (λ r. Result (Unit {0})) [
        | ok existing ↦ check_precondition existing precondition
        | err e ↦ err e
      ]
  check_again WriteFileMode.overwrite target limit disk = ok tt

  abbrev pub parent_of : FilePath → Option FilePath
  parent_of target = elim (os.parent target) as (λ o. Option FilePath) [
    | none ↦ none
    | some parent ↦ if is_empty parent then none else some parent
  ]

  abbrev pub temporary_path : FilePath → FilePath → Text → FilePath
  temporary_path parent target uuid = os.join parent (
      codes "."
      ++ (unwrap_or (os.file_name target) (codes "file")
          ++ (codes ".process-execution-" ++ (uuid ++ codes ".tmp"))))

  abbrev pub keep_permissions : FilePath → Io RawMetadata → Action Disk (Unit {0})
  keep_permissions temporary (bad e) = give (ok tt)
  keep_permissions temporary (good found) = call (os.set_permissions temporary found)

  -- The closure that writes the new file beside the old one and renames it.
  unfoldable pub write_temporary :
      FilePath → FilePath → Bytes → WriteFileMode → ℕ → Io RawMetadata → Action Disk (Unit {0})
  write_temporary temporary target bytes mode limit found = do
    call (os.create_new temporary)
    call (os.write_all temporary bytes)
    call (os.sync_all temporary)
    keep_permissions temporary found
    look (check_again mode target limit)
    call (os.rename temporary target)

  -- `if write_result.is_err() { let _ = fs::remove_file(&temporary) }`
  abbrev pub clean_up : FilePath → Result (Unit {0}) × Disk → Result (Unit {0}) × Disk
  clean_up temporary (ok done, disk) = (ok done, disk)
  clean_up temporary (err e, disk) = (err e, (os.remove_file temporary disk).1)

  abbrev pub create_parents : Bool → FilePath → Action Disk (Unit {0})
  create_parents false parent = give (ok tt)
  create_parents true parent = call (os.create_dir_all parent)

  abbrev pub write_receipt : Text → FilePath → Bytes → MutationDisposition → WriteFileReceipt
  write_receipt mutation_id path bytes disposition = record {
    mutation_id = mutation_id;
    path = path;
    sha256 = os.sha256 bytes;
    bytes_written = length bytes;
    disposition = disposition;
  }

  -- From the place where a write is needed and allowed.
  unfoldable pub replace_file : FilePath → Bytes → Bool → WriteFileMode → ℕ → Action Disk (Unit {0})
  unfolding write_temporary
  replace_file target bytes create_parent_directories mode limit = do
    parent ← give (ok_or (parent_of target) (invalid "file path has no parent directory"))
    create_parents create_parent_directories parent
    temporary ← look (λ disk. ok (temporary_path parent target (os.new_uuid disk)))
    λ disk.
        clean_up temporary
          (write_temporary temporary target bytes mode limit (os.metadata disk target) disk)

  unfoldable pub write_file_at :
      Text → FilePath → Bytes → Bool → WriteFileMode → ℕ → Action Disk WriteFileReceipt
  unfolding replace_file
  write_file_at mutation_id path bytes create_parent_directories mode limit = do
    target ← look (write_target mode path)
    existing ← look (present_hash mode target limit)
    if is_desired existing (os.sha256 bytes)
        then give (ok (write_receipt mutation_id path bytes MutationDisposition.already_applied))
        else (do
          give (check_mode mode existing)
          replace_file target bytes create_parent_directories mode limit
          give (ok (write_receipt mutation_id path bytes MutationDisposition.applied)))

  abbrev pub remove_receipt : Text → FilePath → MutationDisposition → RemoveFileReceipt
  remove_receipt mutation_id path disposition = record {
    mutation_id = mutation_id;
    path = path;
    disposition = disposition;
  }

  abbrev pub remove_existing :
      Text → FilePath → FilePrecondition → Option Text → Action Disk RemoveFileReceipt
  remove_existing mutation_id path precondition none =
      give (ok (remove_receipt mutation_id path MutationDisposition.already_applied))
  remove_existing mutation_id path precondition (some existing) = do
    give (check_precondition (some existing) precondition)
    call (os.remove_file path)
    give (ok (remove_receipt mutation_id path MutationDisposition.applied))

  unfoldable pub remove_file_at :
      Text → FilePath → FilePrecondition → ℕ → Action Disk RemoveFileReceipt
  remove_file_at mutation_id path precondition limit =
      look (λ disk. existing_hash os disk path limit) >>= λ existing.
      remove_existing mutation_id path precondition existing
