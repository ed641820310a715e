-- ===== src/Core/Patch/Execute.antt =====
-- packages/process-execution-core/src/filesystem/patch.rs: `execute`, which plans all sections, checks
-- every file that it has seen once more, and then commits one step after the other.
pub mod Atomic
pub mod Complete
use execution_provider.Prelude.{
  ℕ, zero, suc, ◌+◌, ◌*◌, Bool, true, false, ◌||◌, not, Option, none, some, List, [], ◌∷◌, ◌++◌,
  map, any, sum_by, eqb, ltb, length, is_empty, is_some, unwrap_or, if◌then◌else◌,
}
use execution_provider.Prelude.Text.{Text, size}
use execution_provider.Prelude.Dict.{Dict}
use execution_provider.Core.Errors.{Error, Result, ok, err, error, ErrorCode, invalid}
use execution_provider.Core.Types.{Bytes}
use execution_provider.Core.Files.{FilePath, FilePrecondition, WriteFileMode, Os}
use execution_provider.Core.Files.Writing.{Action, ◌>>=◌, ◌>>◌, give, look, call, write_file_at}
use execution_provider.Core.Patch.{
  ApplyPatchRequest, PatchInput, ReplacementFile, Section, max_patch_bytes, max_patch_files,
  max_patch_edits,
}
use execution_provider.Core.Patch.Parse.{parse_codex}
use execution_provider.Core.Patch.Replace.{Attempt, done, failed}
use execution_provider.Core.Patch.Receipts.{
  PatchReceipt, PatchChange, PatchChangeKind, Step, new_receipt, fail, change, append_diff,
}
use execution_provider.Core.Patch.Plan.{View, PlanState, no_plan, plan_section, read_optional}

abbrev pub max_patch_result_bytes : ℕ
max_patch_result_bytes = 1700000

-- The answer of the parser, which always has one.
abbrev pub answer_of : Option (Result (List Section)) → Result (List Section)
answer_of none = err (invalid "no answer")
answer_of (some r) = r

-- The sections of a patch, in either format.
unfoldable pub sections_of : PatchInput → Result (List Section)
sections_of (PatchInput.codex text) =
    if ltb max_patch_bytes (size text)
    then err (error ErrorCode.resource_limit "patch text exceeds 2 MiB")
    else answer_of (parse_codex text)
sections_of (PatchInput.text_replacements files) =
    if is_empty files || ltb max_patch_files (length files) || any (λ f. is_empty f.edits) files
    then err (invalid "replacement files and edits must be nonempty and within limits")
    else ok (map Section.replace files)

abbrev pub edits_of : Section → ℕ
edits_of (Section.replace file) = length file.edits
edits_of (Section.update path move_to chunks) = length chunks
edits_of _ = 1

abbrev pub exceeds_limits : List Section → Bool
exceeds_limits sections =
    is_empty sections
    || ltb max_patch_files (length sections)
    || ltb max_patch_edits (sum_by edits_of sections)

-- `planned_precondition`
abbrev pub same_bytes : Bytes → Bytes → Bool
same_bytes [] [] = true
same_bytes [] (b ∷ bs) = false
same_bytes (a ∷ xs) [] = false
same_bytes (a ∷ xs) (b ∷ bs) = if eqb a b then same_bytes xs bs else false

abbrev pub same_content : Option Bytes → Option Bytes → Bool
same_content none none = true
same_content none (some b) = false
same_content (some a) none = false
same_content (some a) (some b) = same_bytes a b

-- Which section and which edit an error is about.
abbrev pub Place : Type 0
Place = Option ℕ × Option ℕ

-- The steps of a plan, and the files that it has seen.
abbrev pub with_step :
    Step → Attempt Place (List Step × PlanState) → Attempt Place (List Step × PlanState)
with_step step (failed e place) = failed e place
with_step step (done (steps, plan)) = done (step ∷ steps, plan)

abbrev pub push_change : PatchChange → PatchReceipt → PatchReceipt
push_change c r = record r { changes = r.changes ++ c ∷ [] }

abbrev pub is_precondition_failed : ErrorCode → Bool
is_precondition_failed ErrorCode.precondition_failed = true
is_precondition_failed _ = false

abbrev pub verify_content : Option Bytes → Result (Option Bytes) → Result (Unit {0})
verify_content expected (err e) = err e
verify_content expected (ok current) =
    if same_content current expected
    then ok tt
    else err (error ErrorCode.precondition_failed "file changed before commit")

-- The diff is dropped where the receipt would be too long. `encoded` is the length of the receipt as
-- JSON, if it can be written.
abbrev pub trim_receipt : (PatchReceipt → Option ℕ) → PatchReceipt → PatchReceipt
trim_receipt encoded r =
    if ltb max_patch_result_bytes (unwrap_or (encoded r) 0)
    then record r { diff = []; diff_truncated = true }
    else r

module _ {Disk : Type 0} (os : Os Disk) where
  -- The loop over the sections.
  unfoldable pub plan_all :
      Disk → List Section → ℕ → FilePath → ℕ → PlanState → Attempt Place (List Step × PlanState)
  plan_all disk [] index cwd limit plan = done ([], plan)
  plan_all disk (section ∷ rest) index cwd limit plan =
      elim (plan_section os disk section index cwd limit plan) [
        | failed e edit ↦ failed e (some index, edit)
        | done planned ↦ with_step planned.0 (plan_all disk rest (index + 1) cwd limit planned.1)
      ]

  unfoldable pub verify : FilePath → Option Bytes → ℕ → Disk → Result (Unit {0})
  verify path expected limit disk = verify_content expected (read_optional os disk path limit)

  -- The recheck of all files that were looked at.
  unfoldable pub verify_all : Dict FilePath View → ℕ → Disk → Result (Unit {0})
  unfolding verify
  verify_all [] limit disk = ok tt
  verify_all ((path, view) ∷ rest) limit disk = elim (verify path view.original limit disk) [
    | err e ↦ err e
    | ok checked ↦ verify_all rest limit disk
  ]

  unfoldable pub planned_precondition : Option Bytes → FilePrecondition
  planned_precondition none = FilePrecondition.missing
  planned_precondition (some bytes) = FilePrecondition.sha256 (os.sha256 bytes)

  unfoldable pub commit_planned_write :
      FilePath → Bytes → Option Bytes → Bool → ℕ → Action Disk (Unit {0})
  unfolding planned_precondition
  commit_planned_write path after before create_parent_directories limit =
      write_file_at os [] path after create_parent_directories
        (WriteFileMode.conditional (planned_precondition before)) limit
      >>= λ receipt. give (ok tt)

  -- The removal of a move's source, after its destination was written.
  abbrev pub remove_source : Step → ℕ → Action Disk (Unit {0})
  remove_source step limit =
      look (verify step.path step.before limit) >> call (os.remove_file step.path)

  -- What a commit answers, with `destination_written`.
  abbrev pub Committed : Type 0
  Committed = (Result (Unit {0}) × Bool) × Disk

  abbrev pub commit_source : Step → ℕ → Result (Unit {0}) × Disk → Committed
  commit_source step limit (err e, disk) = ((err e, false), disk)
  commit_source step limit (ok written, disk) =
      let removed = remove_source step limit disk in ((removed.0, true), removed.1)

  abbrev pub unwritten : Result (Unit {0}) × Disk → Committed
  unwritten r = ((r.0, false), r.1)

  -- The closure that commits a step. Where the source would panic for want of new bytes or of a
  -- destination, this goes on with empty ones; a plan has no such step (Complete).
  unfoldable pub commit_kind : PatchChangeKind → Step → ℕ → Disk → Committed
  unfolding commit_planned_write verify
  commit_kind PatchChangeKind.delete step limit disk =
      unwritten (call (os.remove_file step.path) disk)
  commit_kind PatchChangeKind.move step limit disk = commit_source step limit (
      commit_planned_write (unwrap_or step.destination []) (unwrap_or step.after [])
        step.destination_before true limit disk)
  commit_kind PatchChangeKind.add step limit disk =
      unwritten
        (commit_planned_write step.path (unwrap_or step.after []) step.before true limit disk)
  commit_kind PatchChangeKind.update step limit disk =
      unwritten
        (commit_planned_write step.path (unwrap_or step.after []) step.before false limit disk)

  abbrev pub verify_destination : Option FilePath → Option Bytes → ℕ → Disk → Result (Unit {0})
  verify_destination none expected limit disk = ok tt
  verify_destination (some destination) expected limit disk = verify destination expected limit disk

  -- The change of a destination whose source could not be removed.
  abbrev pub written_change : Step → PatchChange
  written_change step =
      change os
        (if is_some step.destination_before then PatchChangeKind.update else PatchChangeKind.add)
        (unwrap_or step.destination []) none step.destination_before step.after none

  -- The receipt behind a commit that failed.
  abbrev pub commit_failed : Step → Error → Bool → PatchReceipt → PatchReceipt
  commit_failed step e written r =
      fail e (some step.section) none (written || not (is_precondition_failed e.code))
        (if written then push_change (written_change step) r else r)

  -- The receipt behind a commit that succeeded.
  abbrev pub commit_done : Step → PatchReceipt → PatchReceipt
  commit_done step r =
      push_change
        (change os step.kind step.path step.destination step.before step.after
          step.destination_before)
        (append_diff os r step)

  abbrev pub verify_step : Step → ℕ → Disk → Result (Unit {0})
  verify_step step limit disk =
      elim (verify step.path step.before limit disk) as (λ r. Result (Unit {0})) [
        | err e ↦ err e
        | ok checked ↦ verify_destination step.destination step.destination_before limit disk
      ]

  -- The loop over the steps, until one fails.
  unfoldable pub commit_steps : List Step → ℕ → PatchReceipt → Disk → PatchReceipt × Disk
  unfolding commit_kind verify
  commit_steps [] limit r disk = (r, disk)
  commit_steps (step ∷ rest) limit r disk = elim (verify_step step limit disk) [
    | err e ↦ (fail e (some step.section) none false r, disk)
    | ok checked ↦
        let committed = commit_kind step.kind step limit disk in
        elim committed.0.0 [
          | err e ↦ (commit_failed step e committed.0.1 r, committed.1)
          | ok finished ↦ commit_steps rest limit (commit_done step r) committed.1
        ]
  ]

  -- From the plan on.
  abbrev pub commit_plan :
      Attempt Place (List Step × PlanState) → ℕ → PatchReceipt → Disk → PatchReceipt × Disk
  commit_plan (failed e place) limit r disk = (fail e place.0 place.1 false r, disk)
  commit_plan (done planned) limit r disk =
      elim (verify_all planned.1.view limit disk) as (λ q. PatchReceipt × Disk) [
        | err e ↦ (fail e none none false r, disk)
        | ok checked ↦ commit_steps planned.0 limit r disk
      ]

  -- From the sections on.
  abbrev pub commit_sections :
      Result (List Section) → FilePath → ℕ → PatchReceipt → Disk → PatchReceipt × Disk
  commit_sections (err e) cwd limit r disk = (fail e none none false r, disk)
  commit_sections (ok sections) cwd limit r disk =
      if exceeds_limits sections
      then (
        fail (error ErrorCode.resource_limit "patch section/edit limit exceeded") none none false r,
        disk,
      )
      else commit_plan (plan_all disk sections 0 cwd limit no_plan) limit r disk

  unfoldable pub execute :
      (PatchReceipt → Option ℕ) → ApplyPatchRequest → FilePath → ℕ → Disk → PatchReceipt × Disk
  unfolding sections_of plan_all verify_all commit_steps
  execute encoded request cwd limit disk =
      let ended =
        commit_sections (sections_of request.patch) cwd limit (new_receipt request.mutation_id)
          disk in
      (trim_receipt encoded ended.0, ended.1)
