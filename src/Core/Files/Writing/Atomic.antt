-- ===== src/Core/Files/Writing/Atomic.antt =====
-- A write that fails leaves the files as they were.
use execution_provider.Prelude.{
  ℕ, ◌≡◌, refl, ◌∙◌, Bool, true, false, Option, none, some, Bool-cases, inl, inr, if◌then◌else◌,
}
use execution_provider.Prelude.Text.{Text}
use execution_provider.Core.Errors.{Result, ok, err, invalid, ok_or}
use execution_provider.Core.Types.{Bytes}
use execution_provider.Core.Files.{
  FilePath, WriteFileMode, WriteFileReceipt, MutationDisposition, IoError, Io, good, bad, map_err,
  RawMetadata, Os,
}
use execution_provider.Core.Files.Writing.{
  Action, after, ◌>>=◌, ◌>>◌, give, look, call, write_target, present_hash, is_desired, check_mode,
  check_again, parent_of, temporary_path, keep_permissions, write_temporary, clean_up,
  create_parents, write_receipt, replace_file, write_file_at,
}

-- What the operating system documents of the calls that prepare a write, for what `files` tells of a
-- file system, such as the contents of the files that are not temporary: new directories and what is
-- done to a temporary file do not show, and neither does a renaming that fails.
pub record KeepsFiles {Disk V : Type 0} (os : Os Disk) (files : Disk → V) : Type 0 where
  pub made_dirs : (p : FilePath) (d : Disk) → files (os.create_dir_all p d).1 ≡ files d
  pub made :
      (parent target : FilePath) (uuid : Text) (d : Disk)
      → files (os.create_new (temporary_path os parent target uuid) d).1 ≡ files d
  pub filled :
      (parent target : FilePath) (uuid : Text) (bytes : Bytes) (d : Disk)
      → files (os.write_all (temporary_path os parent target uuid) bytes d).1 ≡ files d
  pub synced :
      (parent target : FilePath) (uuid : Text) (d : Disk)
      → files (os.sync_all (temporary_path os parent target uuid) d).1 ≡ files d
  pub permitted :
      (parent target : FilePath) (uuid : Text) (found : RawMetadata) (d : Disk)
      → files (os.set_permissions (temporary_path os parent target uuid) found d).1 ≡ files d
  pub dropped :
      (parent target : FilePath) (uuid : Text) (d : Disk)
      → files (os.remove_file (temporary_path os parent target uuid) d).1 ≡ files d
  pub not_renamed :
      (parent target : FilePath) (uuid : Text) (d : Disk) (e : IoError)
      → (os.rename (temporary_path os parent target uuid) target d).0 ≡ bad e
      → files (os.rename (temporary_path os parent target uuid) target d).1 ≡ files d

-- What `write_file_at` does once it knows what is there.
module _ {Disk : Type 0} (os : Os Disk) where
  abbrev pub write_checked :
      Text
      → FilePath
      → FilePath
      → Bytes
      → Bool
      → WriteFileMode
      → ℕ
      → Option Text
      → Action Disk WriteFileReceipt
  write_checked mutation_id path target bytes create mode limit existing =
      if is_desired os existing (os.sha256 bytes)
      then give (ok (write_receipt os mutation_id path bytes MutationDisposition.already_applied))
      else (give (check_mode os mode existing)
          >> (replace_file os target bytes create mode limit
              >> give (ok (write_receipt os mutation_id path bytes MutationDisposition.applied))))

module _ {Disk V : Type 0} (os : Os Disk) (files : Disk → V) (law : KeepsFiles os files) where
  -- An error comes with a file system that shows the same files.
  abbrev pub FailsCleanly : {A : Type 0} → Disk → Result A × Disk → Type 0
  FailsCleanly start (ok a, disk) = Unit
  FailsCleanly start (err e, disk) = files disk ≡ files start

  -- An action that fails cleanly wherever the files still are those of the start.
  abbrev pub IsClean : {A : Type 0} → Disk → Action Disk A → Type 0
  IsClean start m = (disk : Disk) → files disk ≡ files start → FailsCleanly start (m disk)

  pub after-FailsCleanly :
      {A B : Type 0} (start : Disk) (r : Result A × Disk) (next : A → Action Disk B)
      → files r.1 ≡ files start
      → ((a : A) → IsClean start (next a))
      → FailsCleanly start (after r next)
  after-FailsCleanly start (ok a, disk) next same later = later a disk same
  after-FailsCleanly start (err e, disk) next same later = same

  -- What does not change the files, before what fails cleanly.
  then-IsClean :
      {B : Type 0} (start : Disk) (m : Action Disk (Unit {0})) (rest : Action Disk B)
      → ((disk : Disk) → files (m disk).1 ≡ files disk)
      → IsClean start rest
      → IsClean start (m >> rest)
  then-IsClean start m rest keeps clean disk same =
      after-FailsCleanly start (m disk) (λ a. rest) (keeps disk ∙ same) (λ a. clean)

  give-FailsCleanly :
      {A : Type 0} (start disk : Disk) (r : Result A)
      → files disk ≡ files start
      → FailsCleanly start (give r disk)
  give-FailsCleanly start disk (ok a) same = tt
  give-FailsCleanly start disk (err e) same = same

  rename-FailsCleanly :
      (start disk : Disk) (parent target : FilePath) (uuid : Text)
      → files disk ≡ files start
      → FailsCleanly start (call (os.rename (temporary_path os parent target uuid) target) disk)
  rename-FailsCleanly start disk parent target uuid same =
      go (os.rename (temporary_path os parent target uuid) target disk).0
        (λ e is. law.not_renamed parent target uuid disk e is ∙ same)
    where
      go :
          (r : Io (Unit {0}))
          → ((e : IoError)
              → r ≡ bad e
              → files (os.rename (temporary_path os parent target uuid) target disk).1
                ≡ files start)
          → FailsCleanly start
              (map_err r, (os.rename (temporary_path os parent target uuid) target disk).1)
      go (good done) h = tt
      go (bad e) h = h e refl

  permissions_keep :
      (parent target : FilePath) (uuid : Text) (found : Io RawMetadata) (disk : Disk)
      → files (keep_permissions os (temporary_path os parent target uuid) found disk).1 ≡ files disk
  permissions_keep parent target uuid (good found) disk =
      law.permitted parent target uuid found disk
  permissions_keep parent target uuid (bad e) disk = refl

  write_temporary-FailsCleanly :
      (parent target : FilePath) (uuid : Text) (bytes : Bytes) (mode : WriteFileMode) (limit : ℕ)
      (found : Io RawMetadata) (start : Disk)
      → IsClean start
          (write_temporary os (temporary_path os parent target uuid) target bytes mode limit found)
  unfolding write_temporary
  write_temporary-FailsCleanly parent target uuid bytes mode limit found start =
      let temporary = temporary_path os parent target uuid in
      let renamed = call (os.rename temporary target) in
      let checked = look (check_again os mode target limit) >> renamed in
      let permitted = keep_permissions os temporary found >> checked in
      let synced = call (os.sync_all temporary) >> permitted in
      let filled = call (os.write_all temporary bytes) >> synced in
      then-IsClean start (call (os.create_new temporary)) filled (law.made parent target uuid) (
        then-IsClean start (call (os.write_all temporary bytes)) synced
          (law.filled parent target uuid bytes)
          (then-IsClean start (call (os.sync_all temporary)) permitted
            (law.synced parent target uuid)
            (then-IsClean start (keep_permissions os temporary found) checked
              (permissions_keep parent target uuid found)
              (then-IsClean start (look (check_again os mode target limit)) renamed (λ d. refl)
                (λ d same. rename-FailsCleanly start d parent target uuid same)))))

  clean_up-FailsCleanly :
      (parent target : FilePath) (uuid : Text) (start : Disk) (r : Result (Unit {0}) × Disk)
      → FailsCleanly start r
      → FailsCleanly start (clean_up os (temporary_path os parent target uuid) r)
  clean_up-FailsCleanly parent target uuid start (ok done, disk) h = tt
  clean_up-FailsCleanly parent target uuid start (err e, disk) h =
      law.dropped parent target uuid disk ∙ h

  parents_keep :
      (create : Bool) (parent : FilePath) (disk : Disk)
      → files (create_parents os create parent disk).1 ≡ files disk
  parents_keep true parent disk = law.made_dirs parent disk
  parents_keep false parent disk = refl

  -- The closure and the removal of its temporary file, if it fails.
  abbrev written_file :
      FilePath → FilePath → Bytes → WriteFileMode → ℕ → Text → Action Disk (Unit {0})
  written_file parent target bytes mode limit uuid disk =
      clean_up os (temporary_path os parent target uuid) (
        write_temporary os (temporary_path os parent target uuid) target bytes mode limit
          (os.metadata disk target) disk)

  written_file-IsClean :
      (parent target : FilePath) (bytes : Bytes) (mode : WriteFileMode) (limit : ℕ) (uuid : Text)
      (start : Disk)
      → IsClean start (written_file parent target bytes mode limit uuid)
  written_file-IsClean parent target bytes mode limit uuid start disk same =
      clean_up-FailsCleanly parent target uuid start
        (write_temporary os (temporary_path os parent target uuid) target bytes mode limit
          (os.metadata disk target) disk)
        (write_temporary-FailsCleanly parent target uuid bytes mode limit (os.metadata disk target)
          start disk same)

  replace_file-IsClean :
      (target : FilePath) (bytes : Bytes) (create : Bool) (mode : WriteFileMode) (limit : ℕ)
      (start : Disk)
      → IsClean start (replace_file os target bytes create mode limit)
  unfolding replace_file
  replace_file-IsClean target bytes create mode limit start disk same = go (parent_of os target)
    where
      go :
          (parent : Option FilePath)
          → FailsCleanly start (
              after
                (give (ok_or parent (invalid "file path has no parent directory")) disk)
                (λ parent. create_parents os create parent >> λ d.
                  written_file parent target bytes mode limit (os.new_uuid d) d))
      go none = same
      go (some parent) =
          then-IsClean start (create_parents os create parent)
            (λ d. written_file parent target bytes mode limit (os.new_uuid d) d)
            (parents_keep create parent)
            (λ d. written_file-IsClean parent target bytes mode limit (os.new_uuid d) start d) disk
            same

  write_checked-IsClean :
      (mutation_id : Text) (path target : FilePath) (bytes : Bytes) (create : Bool)
      (mode : WriteFileMode) (limit : ℕ) (existing : Option Text) (start : Disk)
      → IsClean start (write_checked os mutation_id path target bytes create mode limit existing)
  write_checked-IsClean mutation_id path target bytes create mode limit existing start disk same =
      elim (Bool-cases (is_desired os existing (os.sha256 bytes))) [
        | inl there ↦ rw there tt
        | inr other ↦ rw other (
            then-IsClean start (give (check_mode os mode existing))
              (replace_file os target bytes create mode limit
                >> give (ok (write_receipt os mutation_id path bytes MutationDisposition.applied)))
              (λ d. refl)
              (λ d s.
                replaced d (replace_file os target bytes create mode limit d)
                  (replace_file-IsClean target bytes create mode limit start d s))
              disk same)
      ]
    where
      replaced :
          (d : Disk) (r : Result (Unit {0}) × Disk)
          → FailsCleanly start r
          → FailsCleanly start (
              after r (λ a.
                give (ok (write_receipt os mutation_id path bytes MutationDisposition.applied))))
      replaced d (ok a, e) h = tt
      replaced d (err x, e) h = h

  -- A write that fails, in whatever mode and at whatever call or check, leaves the files as they were,
  -- if the calls that prepare it do not show: it never leaves a part of the new contents behind.
  pub write_file_at-FailsCleanly :
      (mutation_id : Text) (path : FilePath) (bytes : Bytes) (create : Bool) (mode : WriteFileMode)
      (limit : ℕ) (disk : Disk)
      → FailsCleanly disk (write_file_at os mutation_id path bytes create mode limit disk)
  unfolding write_file_at
  write_file_at-FailsCleanly mutation_id path bytes create mode limit disk =
      after-FailsCleanly disk (look (write_target os mode path) disk)
        (λ target. look (present_hash os mode target limit) >>= λ existing.
          write_checked os mutation_id path target bytes create mode limit existing)
        refl
        (λ target d same.
          after-FailsCleanly disk (look (present_hash os mode target limit) d)
            (λ existing. write_checked os mutation_id path target bytes create mode limit existing)
            same
            (λ existing.
              write_checked-IsClean mutation_id path target bytes create mode limit existing disk))
