-- ===== src/Core/Patch/Plan.antt =====
-- packages/process-execution-core/src/filesystem/patch.rs: `plan_section` with the files that it has
-- looked at. Planning only reads: the file system is an argument and not an answer. After an error
-- nothing reads the plan again.
use execution_provider.Prelude.{
  ℕ, String, ◌+◌, Bool, true, false, ◌&&◌, Option, none, some, [], length, is_some, is_none, ltb,
  if◌then◌else◌,
}
use execution_provider.Prelude.Text.{Text, same_text, text_eq}
use execution_provider.Prelude.Dict.{Dict, get, insert, contains_key}
use execution_provider.Core.Errors.{Result, ok, err, error, ErrorCode, invalid, ok_or}
use execution_provider.Core.Types.{Bytes}
use execution_provider.Core.Files.{FilePath, Os}
use execution_provider.Core.Files.Access.{read_file_at, is_not_found}
use execution_provider.Core.Files.{ReadFileResult}
use execution_provider.Core.Patch.{Section, section_path, max_patch_aggregate_bytes}
use execution_provider.Core.Patch.Hunks.{apply_codex}
use execution_provider.Core.Patch.Replace.{Attempt, done, failed, ◌>>=◌, reject, apply_replacements}
use execution_provider.Core.Patch.Receipts.{PatchChangeKind, Step}
use execution_provider.Core.Patch.Targets.{is_link, target}

-- A file as it was found, and as the sections so far leave it.
pub record View : Type 0 where
  pub original : Option Bytes
  pub current : Option Bytes

pub record PlanState : Type 0 where
  pub view : Dict FilePath View
  pub aliases : Dict FilePath FilePath
  pub aggregate : ℕ
  pub work : ℕ

abbrev pub no_plan : PlanState
no_plan = record { view = []; aliases = []; aggregate = 0; work = 0 }

-- What planning a section answers: an error may name an edit.
abbrev pub Planned : Type 0 → Type 0
Planned A = Attempt (Option ℕ) A

-- `.map_err(|e| (e, None))`
abbrev pub plain : {A : Type 0} → Result A → Planned A
plain (ok a) = done a
plain (err e) = failed e none

-- `.map_err(|(e, edit)| (e, Some(edit)))`
abbrev pub of_edit : {A : Type 0} → Attempt ℕ A → Planned A
of_edit (done a) = done a
of_edit (failed e edit) = failed e (some edit)

abbrev pub byte_count : Option Bytes → ℕ
byte_count none = 0
byte_count (some bytes) = length bytes

-- What a section does to its file.
pub record Content : Type 0 where
  pub kind : PatchChangeKind
  pub after : Option Bytes
  pub destination : Option FilePath
  pub destination_before : Option Bytes
  pub plan : PlanState

abbrev pub content_at_path : PatchChangeKind → Option Bytes → PlanState → Content
content_at_path kind after plan = record {
  kind = kind;
  after = after;
  destination = none;
  destination_before = none;
  plan = plan;
}

-- A deletion or a move, whose source must not be a link.
abbrev pub removes_source : Section → Bool
removes_source (Section.delete path) = true
removes_source (Section.update path (some to) chunks) = true
removes_source _ = false

abbrev pub is_replace : Section → Bool
is_replace (Section.replace file) = true
is_replace _ = false

module _ {Disk : Type 0} (os : Os Disk) (disk : Disk) where
  abbrev pub optional_bytes : Result ReadFileResult → Result (Option Bytes)
  optional_bytes (ok file) = ok (some file.bytes)
  optional_bytes (err e) = if is_not_found e.code then ok none else err e

  unfoldable pub read_optional : FilePath → ℕ → Result (Option Bytes)
  read_optional path limit = optional_bytes (read_file_at os disk path limit)

  abbrev pub insert_view : FilePath → Option Bytes → PlanState → Planned (View × PlanState)
  insert_view path original plan =
      let found : View = record { original = original; current = original } in
      let total = plan.aggregate + byte_count original in
      reject (ltb max_patch_aggregate_bytes total)
        (error ErrorCode.resource_limit "aggregate original bytes exceed 20 MiB") none
        (done (found, record plan { view = insert path found plan.view; aggregate = total }))

  -- `state`, under `.map_err(|e| (e, None))`.
  unfoldable pub state : FilePath → ℕ → PlanState → Planned (View × PlanState)
  unfolding read_optional
  state path limit plan = elim (get path plan.view) [
    | some found ↦ done (found, plan)
    | none ↦ plain (read_optional path limit) >>= λ original. insert_view path original plan
  ]

  -- `state(..)?.current = current`
  unfoldable pub set_current : FilePath → ℕ → Option Bytes → PlanState → Planned PlanState
  unfolding state
  set_current path limit current plan = state path limit plan >>= λ (found, next).
      done (record next {
        view = insert path (record { original = found.original; current = current }) next.view;
      })

  abbrev pub plan_target : FilePath → FilePath → PlanState → Planned (FilePath × PlanState)
  plan_target cwd path plan =
      plain (target os disk cwd path plan.aliases) >>= λ (resolved, aliases).
      done (resolved, record plan { aliases = aliases })

  abbrev pub text_of : Option Bytes → String → String → Planned Text
  text_of before missing not_text =
      plain (ok_or before (error ErrorCode.not_found missing)) >>= λ bytes.
      plain (ok_or (os.from_utf8 bytes) (invalid not_text))

  -- An update that stays where it is, or moves.
  abbrev pub plan_move :
      FilePath → ℕ → FilePath → Option FilePath → Text → PlanState → Planned Content
  plan_move cwd limit path none modified plan =
      done (content_at_path PatchChangeKind.update (some (os.into_bytes modified)) plan)
  plan_move cwd limit path (some to) modified plan = plan_target cwd to plan >>= λ (moved, next).
      reject (same_text moved path) (invalid "move destination is the source") none (
        state moved limit next >>= λ (there, last). done (record {
          kind = PatchChangeKind.move;
          after = some (os.into_bytes modified);
          destination = some moved;
          destination_before = there.current;
          plan = last;
        }))

  -- The match on the section.
  unfoldable pub plan_content :
      FilePath → ℕ → FilePath → Option Bytes → Section → PlanState → Planned Content
  unfolding state
  plan_content cwd limit path before (Section.add named content) plan =
      done (content_at_path PatchChangeKind.add (some (os.into_bytes content)) plan)
  plan_content cwd limit path before (Section.delete named) plan =
      reject (is_none before) (error ErrorCode.not_found "file to delete does not exist") none
        (done (content_at_path PatchChangeKind.delete none plan))
  plan_content cwd limit path before (Section.update named move_to chunks) plan =
      text_of before "file to update does not exist" "patch source is not UTF-8" >>= λ text.
      plain (apply_codex text chunks plan.work) >>= λ (modified, work).
      plan_move cwd limit path move_to modified (record plan { work = work })
  plan_content cwd limit path before (Section.replace file) plan =
      text_of before "replacement target does not exist" "replacement source is not UTF-8"
      >>= λ text. of_edit (apply_replacements text file.edits plan.work) >>= λ (modified, work).
          done (
            content_at_path PatchChangeKind.update (some (os.into_bytes modified))
              (record plan { work = work }))

  -- The bounds of the planned bytes.
  abbrev pub count_after : Option Bytes → ℕ → PlanState → Planned PlanState
  count_after after limit plan =
      let total = plan.aggregate + byte_count after in
      reject (ltb limit (byte_count after))
        (error ErrorCode.resource_limit
          "resulting file exceeds the configured limit (at most 5 MiB)")
        none
        (reject (ltb max_patch_aggregate_bytes total)
          (error ErrorCode.resource_limit "aggregate planned bytes exceed 20 MiB") none
          (done (record plan { aggregate = total })))

  -- What later sections find at the section's paths.
  abbrev pub record_after : FilePath → ℕ → Content → PlanState → Planned PlanState
  record_after path limit content plan =
      set_current path limit (if is_some content.destination then none else content.after) plan
      >>= λ next. elim content.destination [
        | none ↦ done next
        | some to ↦ set_current to limit content.after next
      ]

  abbrev pub lexical : FilePath → FilePath → FilePath
  lexical cwd path = if os.is_absolute path then path else os.join cwd path

  abbrev pub planned_step : FilePath → Option Bytes → Content → ℕ → Step
  planned_step path before content index = record {
    kind = content.kind;
    path = path;
    destination = content.destination;
    before = before;
    after = content.after;
    destination_before = content.destination_before;
    section = index;
  }

  unfoldable pub plan_section : Section → ℕ → FilePath → ℕ → PlanState → Planned (Step × PlanState)
  unfolding plan_content set_current
  plan_section section index cwd limit start = do
    (path, named) ← plan_target cwd (section_path section) start
    (found, looked) ←
        reject (is_replace section && contains_key path named.view)
          (invalid "replacement file appears more than once") none
          (reject (removes_source section && is_link os disk (lexical cwd (section_path section)))
            (invalid "delete and move source must not be a symlink") none (state path limit named))
    content ← plan_content cwd limit path found.current section looked
    counted ← count_after content.after limit content.plan
    recorded ← record_after path limit content counted
    done (planned_step path found.current content index, recorded)
