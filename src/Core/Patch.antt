-- ===== src/Core/Patch.antt =====
-- packages/process-execution-core/src/filesystem/patch.rs: the data of patches. A text is a list of
-- code points, and a path is a text.
pub mod Seek
pub mod Splice
pub mod Hunks
pub mod Parse
pub mod Replace
pub mod Receipts
pub mod Targets
pub mod Plan
pub mod Execute
mod Tests
use execution_provider.Prelude.{ℕ, ◌*◌, Bool, Option, List}
use execution_provider.Prelude.Text.{Text}
use execution_provider.Core.Files.{FilePath}

abbrev pub max_patch_bytes : ℕ
max_patch_bytes = 2 * 1024 * 1024

abbrev pub max_patch_files : ℕ
max_patch_files = 32

abbrev pub max_patch_edits : ℕ
max_patch_edits = 256

abbrev pub max_patch_aggregate_bytes : ℕ
max_patch_aggregate_bytes = 20 * 1024 * 1024

abbrev pub max_patch_diff_bytes : ℕ
max_patch_diff_bytes = 64 * 1024

abbrev pub max_match_work : ℕ
max_match_work = 30000000

pub record TextEdit : Type 0 where
  pub old_text : Text
  pub new_text : Text

pub record ReplacementFile : Type 0 where
  pub path : FilePath
  pub edits : List TextEdit

pub data PatchInput : Type 0 where
  codex : Text → PatchInput
  text_replacements : List ReplacementFile → PatchInput

pub record ApplyPatchRequest : Type 0 where
  pub mutation_id : Text
  pub cwd : Option FilePath
  pub patch : PatchInput

pub record Chunk : Type 0 where
  pub anchor : Option Text
  pub old : List Text
  pub new : List Text
  pub eof : Bool

pub data Section : Type 0 where
  add : FilePath → Text → Section
  delete : FilePath → Section
  update : FilePath → Option FilePath → List Chunk → Section
  replace : ReplacementFile → Section

abbrev pub section_path : Section → FilePath
section_path (Section.add path content) = path
section_path (Section.delete path) = path
section_path (Section.update path move_to chunks) = path
section_path (Section.replace file) = file.path
