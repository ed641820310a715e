-- ===== src/Core/Patch/Targets.antt =====
-- packages/process-execution-core/src/filesystem/patch.rs: `target`, the file that a path of a patch
-- names, and the test that no file is named in two ways.
use execution_provider.Prelude.{
  ℕ, zero, suc, Bool, false, not, Option, none, some, List, [], ◌∷◌, is_empty, ltb, if◌then◌else◌,
}
use execution_provider.Prelude.Text.{same_text, size, text_eq}
use execution_provider.Prelude.Dict.{Dict, get, insert}
use execution_provider.Core.Errors.{
  Result, ok, error, ErrorCode, invalid, fail_if, ok_or, ◌>>=◌, ◌>>◌,
}
use execution_provider.Core.Files.{FilePath, Component, good, bad, map_err, Os}

-- The other name under which a file is known.
abbrev pub conflicts : Option FilePath → FilePath → Bool
conflicts none normalized = false
conflicts (some prior) normalized = not (same_text prior normalized)

module _ {Disk : Type 0} (os : Os Disk) (disk : Disk) where
  -- Without `.` and `..`, whatever links there are.
  abbrev pub normalize : FilePath → List Component → FilePath
  normalize path [] = path
  normalize path (Component.parent_dir ∷ rest) = normalize (os.pop path) rest
  normalize path (Component.cur_dir ∷ rest) = normalize path rest
  normalize path (Component.other name ∷ rest) = normalize (os.join path name) rest

  abbrev pub is_link : FilePath → Bool
  is_link path = elim (os.symlink_metadata disk path) as (λ r. Bool) [
    | bad e ↦ false
    | good found ↦ found.is_symlink
  ]

  abbrev pub link_target : FilePath → FilePath → Result FilePath
  link_target path link =
      if os.is_absolute link
      then ok link
      else (ok_or (os.parent path) (invalid "invalid patch path") >>= λ parent.
          ok (os.join parent link))

  -- At most so many links, one after the other.
  unfoldable pub follow : ℕ → FilePath → Result FilePath
  follow zero path = ok path
  follow (suc n) path =
      if is_link path
      then (map_err (os.read_link disk path) >>= λ link.
          link_target path link >>= λ next. follow n next)
      else ok path

  -- One component of a path, behind the file that the components before it name.
  unfoldable pub resolve_component : FilePath → FilePath → Result FilePath
  unfolding follow
  resolve_component path name = follow 40 (os.join path name) >>= λ resolved.
      fail_if (is_link resolved) (invalid "too many symbolic links")
      >> (if os.exists disk resolved then map_err (os.canonicalize disk resolved) else ok resolved)

  unfoldable pub resolve : FilePath → List Component → Result FilePath
  unfolding resolve_component
  resolve path [] = ok path
  resolve path (Component.parent_dir ∷ rest) = resolve (os.pop path) rest
  resolve path (Component.cur_dir ∷ rest) = resolve path rest
  resolve path (Component.other name ∷ rest) =
      resolve_component path name >>= λ resolved. resolve resolved rest

  abbrev pub absolute : FilePath → FilePath → Result FilePath
  absolute cwd input =
      let joined = if os.is_absolute input then input else os.join cwd input in
      if os.is_absolute joined
      then ok joined
      else (map_err (os.current_dir disk) >>= λ here. ok (os.join here joined))

  -- The file, and the names under which files are known so far.
  unfoldable pub target :
      FilePath → FilePath → Dict FilePath FilePath → Result (FilePath × Dict FilePath FilePath)
  unfolding resolve
  target cwd input aliases = do
    fail_if (is_empty input) (invalid "empty patch path")
    joined ← absolute cwd input
    fail_if (ltb 4096 (size joined))
        (error ErrorCode.resource_limit "patch path exceeds 4096 bytes")
    resolved ← resolve [] (os.components joined)
    let normalized = normalize [] (os.components joined)
    fail_if (conflicts (get resolved aliases) normalized) (invalid "conflicting path aliases")
    ok (resolved, insert resolved normalized aliases)
