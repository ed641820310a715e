-- ===== src/Core/Files/Access.antt =====
-- packages/process-execution-core/src/filesystem.rs: reading files and their metadata, digests and
-- preconditions.
use execution_provider.Prelude.{
  ℕ, zero, suc, ◌+◌, ◌-◌, ◌^◌, Bool, true, false, not, ◌||◌, Option, none, some, map, all, any, eqb,
  ltb, leb, length, unwrap_or, is_empty, is_none, if◌then◌else◌,
}
use execution_provider.Prelude.Text.{Text, same_text, size, between}
use execution_provider.Core.Errors.{
  Result, ok, err, error, ErrorCode, invalid, fail_if, ok_or, ◌>>=◌, ◌>>◌,
}
use execution_provider.Core.Files.{
  FilePath, FilePrecondition, FileMetadata, ReadFileResult, Moment, Io, good, bad, map_io, map_err,
  RawMetadata, Os,
}

-- The largest `i64`.
abbrev pub i64_max : ℕ
i64_max = 2 ^ 63 - 1

-- `system_time_ms`
unfoldable pub system_time_ms : Moment → Option Moment
system_time_ms (Moment.since ms) = if leb ms i64_max then some (Moment.since ms) else none
system_time_ms (Moment.before ms) = if leb ms i64_max then some (Moment.before ms) else none

-- `a.eq_ignore_ascii_case(b)`
abbrev pub ascii_lower : ℕ → ℕ
ascii_lower c = if between 65 90 c then c + 32 else c

abbrev pub same_ignoring_case : Text → Text → Bool
same_ignoring_case a b = same_text (map ascii_lower a) (map ascii_lower b)

abbrev pub precondition_holds : Option Text → FilePrecondition → Bool
precondition_holds existing FilePrecondition.missing = is_none existing
precondition_holds none (FilePrecondition.sha256 expected) = false
precondition_holds (some existing) (FilePrecondition.sha256 expected) =
    same_ignoring_case existing expected

unfoldable pub check_precondition : Option Text → FilePrecondition → Result (Unit {0})
check_precondition existing precondition =
    if precondition_holds existing precondition
    then ok tt
    else err (error ErrorCode.precondition_failed "file changed after it was read")

abbrev pub is_hexdigit : ℕ → Bool
is_hexdigit c = between 48 57 c || between 65 70 c || between 97 102 c

unfoldable pub validate_precondition : FilePrecondition → Result (Unit {0})
validate_precondition FilePrecondition.missing = ok tt
validate_precondition (FilePrecondition.sha256 digest) =
    fail_if
      (not (eqb (size digest) 64) || not (all is_hexdigit digest) || any (between 65 90) digest)
      (invalid "sha256 precondition must contain 64 lowercase hexadecimal characters")

unfoldable pub validate_mutation_id : Text → Result (Unit {0})
validate_mutation_id id =
    fail_if (is_empty id || ltb 256 (size id)) (invalid "mutation_id must contain 1 to 256 bytes")

-- `file_limit`
unfoldable pub file_limit : Option ℕ → ℕ → Result ℕ
file_limit requested maximum =
    let limit = unwrap_or requested maximum in
    fail_if (eqb limit 0 || ltb maximum limit)
      (invalid "file byte limit must be positive and within the configured maximum")
    >> ok limit

abbrev pub is_not_found : ErrorCode → Bool
is_not_found ErrorCode.not_found = true
is_not_found _ = false

abbrev pub is_resource_limit : ErrorCode → Bool
is_resource_limit ErrorCode.resource_limit = true
is_resource_limit _ = false

module _ {Disk : Type 0} (os : Os Disk) where
  -- A request's working directory, against the configured one.
  abbrev pub base_directory : FilePath → Option FilePath → FilePath
  base_directory configured none = configured
  base_directory configured (some dir) = if os.is_absolute dir then dir else os.join configured dir

  -- The path of a request, against its working directory and the configured one.
  unfoldable pub resolve_file_path : FilePath → Option FilePath → FilePath → Result FilePath
  resolve_file_path configured cwd path =
      fail_if (is_empty path) (invalid "file path is empty")
      >> ok (if os.is_absolute path then path else os.join (base_directory configured cwd) path)

  abbrev pub as_metadata : RawMetadata → RawMetadata → FileMetadata
  as_metadata link followed = record {
    is_file = followed.is_file;
    is_directory = followed.is_directory;
    is_symlink = link.is_symlink;
    size = followed.size;
    modified_at_ms = elim followed.modified [ none ↦ none | some time ↦ system_time_ms time ];
  }

  unfoldable pub metadata : Disk → FilePath → Result FileMetadata
  unfolding system_time_ms
  metadata disk path = map_err (os.symlink_metadata disk path) >>= λ link.
      map_err (os.metadata disk path) >>= λ followed. ok (as_metadata link followed)

  unfoldable pub read_file_at : Disk → FilePath → ℕ → Result ReadFileResult
  unfolding metadata
  read_file_at disk path limit = do
    found ← metadata disk path
    fail_if (not found.is_file) (invalid "path is not a regular file")
    fail_if (ltb limit found.size)
        (error ErrorCode.resource_limit "file exceeds the requested byte limit")
    bytes ← map_err (os.read_up_to disk path (limit + 1))
    fail_if (ltb limit (length bytes)) (
        error ErrorCode.resource_limit "file grew beyond the requested byte limit while being read")
    ok (record { path = path; metadata = found; bytes = bytes; sha256 = os.sha256 bytes })

  abbrev pub hash_of : Result ReadFileResult → Result (Option Text)
  hash_of (ok file) = ok (some file.sha256)
  hash_of (err e) = if is_not_found e.code then ok none else err e

  unfoldable pub existing_hash : Disk → FilePath → ℕ → Result (Option Text)
  unfolding read_file_at
  existing_hash disk path limit = hash_of (read_file_at disk path limit)

  abbrev pub readable_hash_of : Result ReadFileResult → Result (Option Text)
  readable_hash_of (ok file) = ok (some file.sha256)
  readable_hash_of (err e) = if is_resource_limit e.code then ok none else err e

  abbrev pub hash_behind : Disk → FilePath → ℕ → Io RawMetadata → Result (Option Text)
  hash_behind disk path limit (bad e) = if e.is_not_found then ok none else err (map_io e)
  hash_behind disk path limit (good found) =
      if not found.is_file
      then err (invalid "path is not a regular file")
      else if ltb limit found.size
      then ok none
      else readable_hash_of (read_file_at disk path limit)

  unfoldable pub readable_existing_hash : Disk → FilePath → ℕ → Result (Option Text)
  unfolding read_file_at
  readable_existing_hash disk path limit = hash_behind disk path limit (os.metadata disk path)

  -- The path that a symbolic link names.
  abbrev pub linked : FilePath → FilePath → Result FilePath
  linked target link =
      if os.is_absolute link
      then ok link
      else ok_or (os.parent target) (invalid "file path has no parent directory") >>= λ parent.
          ok (os.join parent link)

  -- The loop over at most so many links.
  unfoldable pub follow_links : ℕ → Disk → FilePath → Result FilePath
  follow_links zero disk target = err (invalid "too many symbolic links")
  follow_links (suc n) disk target = elim (os.symlink_metadata disk target) [
    | bad e ↦ if e.is_not_found then ok target else err (map_io e)
    | good found ↦
        if not found.is_symlink
        then (if found.is_file then ok target else err (invalid "path is not a regular file"))
        else map_err (os.read_link disk target) >>= λ link.
            linked target link >>= λ next. follow_links n disk next
  ]

  unfoldable pub follow_final_symlinks : Disk → FilePath → Result FilePath
  unfolding follow_links
  follow_final_symlinks disk path = follow_links 40 disk path
