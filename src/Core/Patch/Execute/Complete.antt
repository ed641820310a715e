-- ===== src/Core/Patch/Execute/Complete.antt =====
-- What the steps of a plan hold, so that the `unwrap` and the `expect` of a commit never panic.
use execution_provider.Prelude.{
  ℕ, ◌+◌, ◌≡◌, refl, Bool, true, false, Option, none, some, List, [], ◌∷◌, is_none, is_some,
}
use execution_provider.Prelude.Text.{Text, same_text}
use execution_provider.Core.Errors.{Error, error, ErrorCode, invalid}
use execution_provider.Core.Types.{Bytes}
use execution_provider.Core.Files.{FilePath, Os}
use execution_provider.Core.Patch.{Section, section_path}
use execution_provider.Core.Patch.Hunks.{apply_codex}
use execution_provider.Core.Patch.Replace.{Attempt, done, failed, ◌>>=◌, reject, apply_replacements}
use execution_provider.Core.Patch.Receipts.{PatchChangeKind, Step}
use execution_provider.Core.Patch.Plan.{
  PlanState, Content, Planned, plain, of_edit, plan_target, text_of, plan_move, plan_content,
  plan_section, state, count_after, record_after,
}
use execution_provider.Core.Patch.Execute.{Place, with_step, plan_all}

-- A deletion needs nothing; a move needs its new bytes and its destination; all else needs its new
-- bytes and has no destination.
abbrev pub Holds : PatchChangeKind → Option Bytes → Option FilePath → Type 0
Holds PatchChangeKind.delete after destination = destination ≡ none
Holds PatchChangeKind.move after destination = (is_some after ≡ true) × (is_some destination ≡ true)
Holds PatchChangeKind.add after destination = (is_some after ≡ true) × (destination ≡ none)
Holds PatchChangeKind.update after destination = (is_some after ≡ true) × (destination ≡ none)

abbrev pub AllHold : List Step → Type 0
AllHold [] = Unit
AllHold (step ∷ steps) = Holds step.kind step.after step.destination × AllHold steps

abbrev pub Always : {I A : Type 0} → (A → Type 0) → Attempt I A → Type 0
Always P (failed e i) = Unit
Always P (done a) = P a

bind-Always :
    {I A B : Type 0} (P : B → Type 0) (q : Attempt I A) (next : A → Attempt I B)
    → ((a : A) → Always P (next a))
    → Always P (q >>= next)
bind-Always P (failed e i) next h = tt
bind-Always P (done a) next h = h a

-- The same with what is known of the first answer.
then-Always :
    {I A B : Type 0} (Q : A → Type 0) (P : B → Type 0) (q : Attempt I A) (next : A → Attempt I B)
    → Always Q q
    → ((a : A) → Q a → Always P (next a))
    → Always P (q >>= next)
then-Always Q P (failed e i) next is h = tt
then-Always Q P (done a) next is h = h a is

reject-Always :
    {I B : Type 0} (P : B → Type 0) (b : Bool) (e : Error) (i : I) (rest : Attempt I B)
    → Always P rest
    → Always P (reject b e i rest)
reject-Always P true e i rest h = tt
reject-Always P false e i rest h = h

abbrev ContentHolds : Content → Type 0
ContentHolds c = Holds c.kind c.after c.destination

module _ {Disk : Type 0} (os : Os Disk) (disk : Disk) where
  plan_move-Always :
      (cwd : FilePath) (limit : ℕ) (path : FilePath) (move_to : Option FilePath) (modified : Text)
      (plan : PlanState)
      → Always ContentHolds (plan_move os disk cwd limit path move_to modified plan)
  plan_move-Always cwd limit path none modified plan = (refl, refl)
  plan_move-Always cwd limit path (some to) modified plan =
      bind-Always ContentHolds (plan_target os disk cwd to plan) _ (λ target.
        reject-Always ContentHolds (same_text target.0 path)
          (invalid "move destination is the source") none _
          (bind-Always ContentHolds (state os disk target.0 limit target.1) _
            (λ there. (refl, refl))))

  plan_content-Always :
      (cwd : FilePath) (limit : ℕ) (path : FilePath) (before : Option Bytes) (section : Section)
      (plan : PlanState)
      → Always ContentHolds (plan_content os disk cwd limit path before section plan)
  unfolding plan_content
  plan_content-Always cwd limit path before (Section.add named content) plan = (refl, refl)
  plan_content-Always cwd limit path before (Section.delete named) plan =
      reject-Always ContentHolds (is_none before)
        (error ErrorCode.not_found "file to delete does not exist") none _ refl
  plan_content-Always cwd limit path before (Section.update named move_to chunks) plan =
      bind-Always ContentHolds
        (text_of os disk before "file to update does not exist" "patch source is not UTF-8") _
        (λ text. bind-Always ContentHolds (plain (apply_codex text chunks plan.work)) _ (λ modified.
          plan_move-Always cwd limit path move_to modified.0 (record plan { work = modified.1 })))
  plan_content-Always cwd limit path before (Section.replace file) plan =
      bind-Always ContentHolds
        (text_of os disk before "replacement target does not exist"
          "replacement source is not UTF-8")
        _
        (λ text.
          bind-Always ContentHolds (of_edit (apply_replacements text file.edits plan.work)) _
            (λ modified. (refl, refl)))

  abbrev StepHolds : Step × PlanState → Type 0
  StepHolds p = Holds p.0.kind p.0.after p.0.destination

  plan_section-Always :
      (section : Section) (index : ℕ) (cwd : FilePath) (limit : ℕ) (start : PlanState)
      → Always StepHolds (plan_section os disk section index cwd limit start)
  unfolding plan_section
  plan_section-Always section index cwd limit start =
      bind-Always StepHolds (plan_target os disk cwd (section_path section) start) _ (λ target.
        bind-Always StepHolds _ _ (λ found.
          then-Always ContentHolds StepHolds
            (plan_content os disk cwd limit target.0 found.0.current section found.1) _
            (plan_content-Always cwd limit target.0 found.0.current section found.1)
            (λ content holds.
              bind-Always StepHolds (count_after os disk content.after limit content.plan) _
                (λ counted.
                  bind-Always StepHolds (record_after os disk target.0 limit content counted) _
                    (λ recorded. holds)))))

-- Every step of a plan holds what its commit takes for granted: all but a deletion their new bytes, and
-- a move, and only a move, its destination.
pub plan_all-AllHold :
    {Disk : Type 0} (os : Os Disk) (disk : Disk) (sections : List Section) (index : ℕ)
    (cwd : FilePath) (limit : ℕ) (plan : PlanState)
    → Always (λ p. AllHold p.0) (plan_all os disk sections index cwd limit plan)
unfolding plan_all
plan_all-AllHold os disk [] index cwd limit plan = tt
plan_all-AllHold os disk (section ∷ rest) index cwd limit plan =
    go (plan_section os disk section index cwd limit plan)
      (plan_section-Always os disk section index cwd limit plan)
      (λ next. plan_all-AllHold os disk rest (index + 1) cwd limit next)
  where
    more :
        (step : Step) (q : Attempt Place (List Step × PlanState))
        → Holds step.kind step.after step.destination
        → Always (λ p. AllHold p.0) q
        → Always (λ p. AllHold p.0) (with_step step q)
    more step (failed e place) here later = tt
    more step (done (steps, last)) here later = (here, later)

    go :
        (q : Planned (Step × PlanState))
        → Always (λ p. Holds p.0.kind p.0.after p.0.destination) q
        → ((next : PlanState)
            → Always (λ p. AllHold p.0) (plan_all os disk rest (index + 1) cwd limit next))
        → Always
            (λ p. AllHold p.0)
            (elim q as (λ r. Attempt Place (List Step × PlanState)) [
              | failed e edit ↦ failed e (some index, edit)
              | done planned ↦
                  with_step planned.0 (plan_all os disk rest (index + 1) cwd limit planned.1)
            ])
    go (failed e edit) here later = tt
    go (done (step, next)) here later =
        more step (plan_all os disk rest (index + 1) cwd limit next) here (later next)
