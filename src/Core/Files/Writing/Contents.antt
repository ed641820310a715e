-- ===== src/Core/Files/Writing/Contents.antt =====
-- A write that succeeds leaves the whole new contents.
use execution_provider.Prelude.{◌≡◌, ◌⊎◌, Option, some}
use execution_provider.Prelude.Text.{Text}
use execution_provider.Core.Errors.{Result, ok, err}
use execution_provider.Core.Types.{Bytes}
use execution_provider.Core.Files.{
  FilePath, WriteFileMode, WriteFileReceipt, MutationDisposition, good, RawMetadata, Os,
}
use execution_provider.Core.Files.Writing.{write_target, temporary_path}

-- What the operating system documents of the contents of files: `write_all` that succeeds has written
-- all bytes of the temporary file, synchronising it and setting its permissions keep them, and a
-- renaming that succeeds gives them to the target. `draft` reads temporary files, `contents` all others.
pub record KeepsContents {Disk : Type 0} (os : Os Disk)
    (draft contents : Disk → FilePath → Option Bytes) : Type 0 where
  pub filled :
      (parent target : FilePath) (uuid : Text) (bytes : Bytes) (d : Disk)
      → let temporary = temporary_path os parent target uuid in
        (os.write_all temporary bytes d).0 ≡ good tt
        → draft (os.write_all temporary bytes d).1 temporary ≡ some bytes
  pub synced :
      (parent target : FilePath) (uuid : Text) (d : Disk)
      → let temporary = temporary_path os parent target uuid in
        draft (os.sync_all temporary d).1 temporary ≡ draft d temporary
  pub permitted :
      (parent target : FilePath) (uuid : Text) (found : RawMetadata) (d : Disk)
      → let temporary = temporary_path os parent target uuid in
        draft (os.set_permissions temporary found d).1 temporary ≡ draft d temporary
  pub renamed :
      (parent target : FilePath) (uuid : Text) (d : Disk)
      → let temporary = temporary_path os parent target uuid in
        (os.rename temporary target d).0 ≡ good tt
        → contents (os.rename temporary target d).1 target ≡ draft d temporary

module _ {Disk : Type 0} where
  -- What holds of a success and its file system.
  abbrev pub AfterOk : {A : Type 0} → (A → Disk → Type 0) → Result A × Disk → Type 0
  AfterOk P (ok a, disk) = P a disk
  AfterOk P (err e, disk) = Unit

module _ {Disk : Type 0} (os : Os Disk) (draft contents : Disk → FilePath → Option Bytes)
    (law : KeepsContents os draft contents) where
  -- What a receipt says of the file system: nothing was written, since the file had these contents, or
  -- the target of the path has the new contents.
  abbrev pub Wrote : FilePath → Bytes → WriteFileMode → Disk → WriteFileReceipt → Disk → Type 0
  Wrote path bytes mode start receipt disk =
      ((receipt.disposition ≡ MutationDisposition.already_applied) × (disk ≡ start))
      ⊎ ((receipt.disposition ≡ MutationDisposition.applied)
          × ((target : FilePath) × (write_target os mode path start ≡ ok target)
              × (contents disk target ≡ some bytes)))
