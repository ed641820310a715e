-- ===== src/Core/Patch/Execute/Atomic.antt =====
-- A patch that is rejected leaves the files as they were.
use execution_provider.Prelude.{
  ℕ, ◌≡◌, refl, sym, ◌∙◌, ◌⊎◌, inl, inr, Bool, true, false, not, Option, none, some, List, [], ◌∷◌,
  ◌++◌, arith, Bool-cases, is_empty, unwrap_or, ltb,
}
use execution_provider.Core.Errors.{Error, Result, ok, err}
use execution_provider.Core.Types.{Bytes}
use execution_provider.Core.Files.{
  FilePath, IoError, Io, good, bad, map_io, map_err, Os, WriteFileMode,
}
use execution_provider.Core.Files.Writing.{after, give, write_file_at}
use execution_provider.Core.Files.Writing.Atomic.{
  KeepsFiles, FailsCleanly, write_file_at-FailsCleanly,
}
use execution_provider.Core.Patch.{ApplyPatchRequest, Section}
use execution_provider.Core.Patch.Replace.{Attempt, done, failed}
use execution_provider.Core.Patch.Receipts.{
  PatchReceipt, PatchStatus, PatchChangeKind, Step, new_receipt, fail, append_diff,
}
use execution_provider.Core.Patch.Receipts.Status.{append_diff-status}
use execution_provider.Core.Patch.Plan.{PlanState, no_plan}
use execution_provider.Core.Patch.Execute.{
  commit_planned_write, planned_precondition, Committed, commit_source, unwritten, commit_kind,
  verify_step, verify_all, commit_failed, commit_done, push_change, written_change, remove_source,
  is_precondition_failed, commit_steps, commit_plan, commit_sections, exceeds_limits, plan_all,
  sections_of, trim_receipt, execute, Place, max_patch_result_bytes,
}

not_empty : {A : Type 0} (xs : List A) (x : A) → is_empty (xs ++ x ∷ []) ≡ false
not_empty [] x = refl
not_empty (y ∷ xs) x = refl

-- A failure is a rejection only if it is certain and nothing was changed.
fail-rejected :
    (e : Error) (section edit : Option ℕ) (uncertain : Bool) (r : PatchReceipt)
    → (fail e section edit uncertain r).status ≡ PatchStatus.rejected
    → (uncertain ≡ false) × (is_empty r.changes ≡ true)
unfolding fail
fail-rejected e section edit true r h = absurd (cc h)
fail-rejected e section edit false r h = elim (Bool-cases (is_empty r.changes)) [
  | inl empty ↦ (refl, empty)
  | inr full ↦ absurd (ground arith)
]

-- An error of the operating system is not a failed precondition.
io_certain : (x : IoError) → is_precondition_failed (map_io x).code ≡ false
unfolding map_io
io_certain x = elim (Bool-cases x.is_not_found) [
  | inl missing ↦ rw missing refl
  | inr other ↦ rw other refl
]

module _ {Disk V : Type 0} (os : Os Disk) (files : Disk → V) (law : KeepsFiles os files) where
  -- An error that would reject the patch comes with the files of the start.
  abbrev KeepsCommit : Disk → Committed os → Type 0
  KeepsCommit start ((ok there, written), disk) = Unit
  KeepsCommit start ((err e, true), disk) = Unit
  KeepsCommit start ((err e, false), disk) =
      is_precondition_failed e.code ≡ true → files disk ≡ files start

  written_before :
      (start : Disk) (r : Result (Unit {0})) (disk : Disk) → KeepsCommit start ((r, true), disk)
  written_before start (ok there) disk = tt
  written_before start (err e) disk = tt

  removal-KeepsCommit :
      (start : Disk) (r : Io (Unit {0})) (disk : Disk)
      → KeepsCommit start ((map_err r, false), disk)
  removal-KeepsCommit start (good there) disk = tt
  removal-KeepsCommit start (bad x) disk = λ p. absurd (ground (arith, io_certain x))

  unwritten-KeepsCommit :
      (start : Disk) (r : Result (Unit {0}) × Disk)
      → FailsCleanly os files law start r
      → KeepsCommit start (unwritten os r)
  unwritten-KeepsCommit start (ok there, disk) h = tt
  unwritten-KeepsCommit start (err e, disk) h = λ p. h

  commit_planned_write-FailsCleanly :
      (path : FilePath) (bytes : Bytes) (before : Option Bytes) (create : Bool) (limit : ℕ)
      (disk : Disk)
      → FailsCleanly os files law disk (commit_planned_write os path bytes before create limit disk)
  unfolding commit_planned_write
  commit_planned_write-FailsCleanly path bytes before create limit disk =
      go
        (write_file_at os [] path bytes create
          (WriteFileMode.conditional (planned_precondition os before)) limit disk)
        (write_file_at-FailsCleanly os files law [] path bytes create
          (WriteFileMode.conditional (planned_precondition os before)) limit disk)
    where
      go :
          {A : Type 0} (r : Result A × Disk)
          → FailsCleanly os files law disk r
          → FailsCleanly os files law disk (after r (λ receipt. give (ok tt)))
      go (ok a, d) h = tt
      go (err e, d) h = h

  commit_source-KeepsCommit :
      (step : Step) (limit : ℕ) (start : Disk) (r : Result (Unit {0}) × Disk)
      → FailsCleanly os files law start r
      → KeepsCommit start (commit_source os step limit r)
  commit_source-KeepsCommit step limit start (err e, disk) h = λ p. h
  commit_source-KeepsCommit step limit start (ok there, disk) h =
      written_before start (remove_source os step limit disk).0 (remove_source os step limit disk).1

  commit_kind-KeepsCommit :
      (kind : PatchChangeKind) (step : Step) (limit : ℕ) (disk : Disk)
      → KeepsCommit disk (commit_kind os kind step limit disk)
  unfolding commit_kind
  commit_kind-KeepsCommit PatchChangeKind.delete step limit disk =
      removal-KeepsCommit disk (os.remove_file step.path disk).0 (os.remove_file step.path disk).1
  commit_kind-KeepsCommit PatchChangeKind.move step limit disk =
      commit_source-KeepsCommit step limit disk
        (commit_planned_write os (unwrap_or step.destination []) (unwrap_or step.after [])
          step.destination_before true limit disk)
        (commit_planned_write-FailsCleanly (unwrap_or step.destination []) (unwrap_or step.after [])
          step.destination_before true limit disk)
  commit_kind-KeepsCommit PatchChangeKind.add step limit disk =
      unwritten-KeepsCommit disk
        (commit_planned_write os step.path (unwrap_or step.after []) step.before true limit disk)
        (commit_planned_write-FailsCleanly step.path (unwrap_or step.after []) step.before true
          limit disk)
  commit_kind-KeepsCommit PatchChangeKind.update step limit disk =
      unwritten-KeepsCommit disk
        (commit_planned_write os step.path (unwrap_or step.after []) step.before false limit disk)
        (commit_planned_write-FailsCleanly step.path (unwrap_or step.after []) step.before false
          limit disk)

  -- A receipt that is rejected comes with the files of the start.
  abbrev RejectedKeeps : Disk → PatchReceipt × Disk → Type 0
  RejectedKeeps start (r, disk) = r.status ≡ PatchStatus.rejected → files disk ≡ files start

  -- Before each step: either something was changed, or nothing shows.
  abbrev Going : Disk → PatchReceipt → Disk → Type 0
  Going start r disk =
      (r.status ≡ PatchStatus.applied) × ((is_empty r.changes ≡ false) ⊎ (files disk ≡ files start))

  fail-RejectedKeeps :
      (start : Disk) (e : Error) (section edit : Option ℕ) (uncertain : Bool) (r : PatchReceipt)
      (disk after : Disk)
      → Going start r disk
      → (uncertain ≡ false → files after ≡ files disk)
      → RejectedKeeps start (fail e section edit uncertain r, after)
  fail-RejectedKeeps start e section edit uncertain r disk after (going, inl full) kept rejected =
      absurd (ground (arith, fail-rejected e section edit uncertain r rejected))
  fail-RejectedKeeps start e section edit uncertain r disk after (going, inr same) kept rejected =
      kept (fail-rejected e section edit uncertain r rejected).0 ∙ same

  true_of_not : (b : Bool) → not b ≡ false → b ≡ true
  true_of_not true h = refl
  true_of_not false h = absurd (cc h)

  commit_failed-RejectedKeeps :
      (start : Disk) (step : Step) (r : PatchReceipt) (disk : Disk) (e : Error) (written : Bool)
      (after : Disk)
      → Going start r disk
      → KeepsCommit disk ((err e, written), after)
      → RejectedKeeps start (commit_failed os step e written r, after)
  commit_failed-RejectedKeeps start step r disk e true after going kept rejected = absurd (
      cc
        (fail-rejected e (some step.section) none true (push_change (written_change os step) r)
          rejected).0)
  commit_failed-RejectedKeeps start step r disk e false after going kept rejected =
      fail-RejectedKeeps start e (some step.section) none (not (is_precondition_failed e.code)) r
        disk after going (λ sure. kept (true_of_not (is_precondition_failed e.code) sure)) rejected

  done-Going :
      (start : Disk) (step : Step) (r : PatchReceipt) (disk after : Disk)
      → Going start r disk
      → Going start (commit_done os step r) after
  done-Going start step r disk after (going, changed) =
      (append_diff-status os r step ∙ going, inl (not_empty (append_diff os r step).changes _))

  commit_steps-RejectedKeeps :
      (start : Disk) (steps : List Step) (limit : ℕ) (r : PatchReceipt) (disk : Disk)
      → Going start r disk
      → RejectedKeeps start (commit_steps os steps limit r disk)
  unfolding commit_steps
  commit_steps-RejectedKeeps start [] limit r disk going =
      λ rejected. absurd (ground (arith, going.0))
  commit_steps-RejectedKeeps start (step ∷ rest) limit r disk going =
      go (verify_step os step limit disk)
        (λ s d g. commit_steps-RejectedKeeps start rest limit s d g)
    where
      committed :
          (c : Committed os)
          → KeepsCommit disk c
          → ((s : PatchReceipt) (d : Disk)
              → Going start s d
              → RejectedKeeps start (commit_steps os rest limit s d))
          → RejectedKeeps start (elim c.0.0 as (λ q. PatchReceipt × Disk) [
            | err e ↦ (commit_failed os step e c.0.1 r, c.1)
            | ok finished ↦ commit_steps os rest limit (commit_done os step r) c.1
          ])
      committed ((ok there, written), d) kept later =
          later (commit_done os step r) d (done-Going start step r disk d going)
      committed ((err e, written), d) kept later =
          commit_failed-RejectedKeeps start step r disk e written d going kept

      go :
          (q : Result (Unit {0}))
          → ((s : PatchReceipt) (d : Disk)
              → Going start s d
              → RejectedKeeps start (commit_steps os rest limit s d))
          → RejectedKeeps start (elim q as (λ q. PatchReceipt × Disk) [
            | err e ↦ (fail e (some step.section) none false r, disk)
            | ok checked ↦
                let committed = commit_kind os step.kind step limit disk in
                elim committed.0.0 as (λ q. PatchReceipt × Disk) [
                  | err e ↦ (commit_failed os step e committed.0.1 r, committed.1)
                  | ok finished ↦ commit_steps os rest limit (commit_done os step r) committed.1
                ]
          ])
      go (err e) later =
          fail-RejectedKeeps start e (some step.section) none false r disk disk going (λ h. refl)
      go (ok checked) later =
          committed (commit_kind os step.kind step limit disk)
            (commit_kind-KeepsCommit step.kind step limit disk) later

  commit_plan-RejectedKeeps :
      (planned : Attempt Place (List Step × PlanState)) (limit : ℕ) (r : PatchReceipt) (disk : Disk)
      → Going disk r disk
      → RejectedKeeps disk (commit_plan os planned limit r disk)
  commit_plan-RejectedKeeps (failed e place) limit r disk going = λ h. refl
  commit_plan-RejectedKeeps (done planned) limit r disk going =
      go (verify_all os planned.1.view limit disk)
    where
      go :
          (q : Result (Unit {0}))
          → RejectedKeeps disk (elim q as (λ q. PatchReceipt × Disk) [
            | err e ↦ (fail e none none false r, disk)
            | ok checked ↦ commit_steps os planned.0 limit r disk
          ])
      go (err e) = λ h. refl
      go (ok checked) = commit_steps-RejectedKeeps disk planned.0 limit r disk going

  commit_sections-RejectedKeeps :
      (sections : Result (List Section)) (cwd : FilePath) (limit : ℕ) (r : PatchReceipt)
      (disk : Disk)
      → Going disk r disk
      → RejectedKeeps disk (commit_sections os sections cwd limit r disk)
  commit_sections-RejectedKeeps (err e) cwd limit r disk going = λ h. refl
  commit_sections-RejectedKeeps (ok sections) cwd limit r disk going =
      elim (Bool-cases (exceeds_limits sections)) [
        | inl over ↦ rw over (λ h. refl)
        | inr fits ↦ rw fits (
            commit_plan-RejectedKeeps (plan_all os disk sections 0 cwd limit no_plan) limit r disk
              going)
      ]

  trim_status :
      (encoded : PatchReceipt → Option ℕ) (r : PatchReceipt)
      → (trim_receipt encoded r).status ≡ r.status
  trim_status encoded r = elim (Bool-cases (ltb max_patch_result_bytes (unwrap_or (encoded r) 0))) [
    | inl long ↦ rw long refl
    | inr short ↦ rw short refl
  ]

  -- A patch whose receipt says that it was rejected leaves the files as they were, if the calls that
  -- prepare a write do not show: whether it could not be read, planned or checked, or its first commit
  -- found the file changed.
  pub execute-rejected :
      (encoded : PatchReceipt → Option ℕ) (request : ApplyPatchRequest) (cwd : FilePath) (limit : ℕ)
      (disk : Disk)
      → (execute os encoded request cwd limit disk).0.status ≡ PatchStatus.rejected
      → files (execute os encoded request cwd limit disk).1 ≡ files disk
  unfolding execute new_receipt
  execute-rejected encoded request cwd limit disk rejected =
      let r = new_receipt request.mutation_id in
      let ended = commit_sections os (sections_of request.patch) cwd limit r disk in
      commit_sections-RejectedKeeps (sections_of request.patch) cwd limit r disk (refl, inr refl)
        (sym (trim_status encoded ended.0) ∙ rejected)
