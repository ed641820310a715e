-- ===== src/Core/Patch/Tests.antt =====
-- Patches on concrete texts and on a file system in memory.
use execution_provider.Prelude.{
  ℕ, ◌≡◌, refl, true, false, Option, none, some, List, [], ◌∷◌, flat_map, is_some, arith,
}
use execution_provider.Prelude.Text.{Text, codes}
use execution_provider.Core.Errors.{ok}
use execution_provider.Core.Files.Access.{read_file_at}
use execution_provider.Core.Files.{map_io}
use execution_provider.Core.Files.Memory.{Memory, memory, memory-KeepsFiles}
use execution_provider.Core.Patch.{ApplyPatchRequest, PatchInput, Section, Chunk, TextEdit}
use execution_provider.Core.Patch.Seek.{seek}
use execution_provider.Core.Patch.Seek.Meaning.{Finds, seek-Answers}
use execution_provider.Core.Patch.Hunks.{apply_codex}
use execution_provider.Core.Patch.Hunks.Success.{plain_chunk}
use execution_provider.Core.Patch.Parse.{parse_codex}
use execution_provider.Core.Patch.Parse.Totality.{parse_codex-IsSome}
use execution_provider.Core.Patch.Parse.Print.{print_codex, AllWritable, section_lines}
use execution_provider.Core.Patch.Parse.Whole.{AllClean, parse-print}
use execution_provider.Core.Patch.Replace.{done, apply_replacements}
use execution_provider.Core.Patch.Replace.Edits.{Replaced, apply_replacements-Replaces}
use execution_provider.Core.Patch.Receipts.{
  PatchReceipt, PatchStatus, PatchChangeKind, Step, new_receipt, fail, append_diff,
}
use execution_provider.Core.Patch.Receipts.Diff.{Shows, IsBounded, append_diff-IsBounded}
use execution_provider.Core.Patch.Plan.{plan_section, no_plan}
use execution_provider.Core.Patch.Targets.{target}
use execution_provider.Core.Patch.Execute.{execute, plan_all}
use execution_provider.Core.Patch.Execute.Complete.{Always, AllHold, plan_all-AllHold}
use execution_provider.Core.Patch.Execute.Atomic.{execute-rejected}

abbrev some_lines : List Text
some_lines = codes "fn main() {" ∷ codes "  run();" ∷ codes "}" ∷ []

-- White space at the end is passed over by the second pass.
seek_spaces : seek some_lines (codes "  run();  " ∷ []) 0 false 10 ≡ ok (some 1, 15)
unfolding seek
seek_spaces = refl

seek-Answers_example :
    Finds some_lines (codes "}" ∷ []) 1 false 0 (seek some_lines (codes "}" ∷ []) 1 false 0)
seek-Answers_example = seek-Answers some_lines (codes "}" ∷ []) 1 false 0 (omega arith)

abbrev call_twice : Chunk
call_twice = record {
  anchor = some (codes "fn main() {");
  old = codes "  run();" ∷ [];
  new = codes "  run();" ∷ codes "  run();" ∷ [];
  eof = false;
}

abbrev main_text : Text
main_text = codes "fn main() {\n  run();\n}\n"

called_twice :
    apply_codex main_text (call_twice ∷ []) 0 ≡ ok (codes "fn main() {\n  run();\n  run();\n}\n", 2)
unfolding apply_codex seek
called_twice = refl

abbrev run_line : List Text
run_line = codes "  run();" ∷ []

abbrev stop_line : List Text
stop_line = codes "  stop();" ∷ []

abbrev first_text : List Text → Text
first_text [] = []
first_text (line ∷ lines) = line

-- An update drops an empty line at the end of the file.
blank_dropped :
    apply_codex (codes "a\nb\n\n") (plain_chunk (codes "a" ∷ []) (codes "c" ∷ []) ∷ []) 0
    ≡ ok (codes "c\nb\n", 1)
unfolding apply_codex seek
blank_dropped = refl

parse_codex-IsSome_example : is_some (parse_codex (codes "no patch")) ≡ true
parse_codex-IsSome_example = parse_codex-IsSome (codes "no patch")

abbrev sections : List Section
sections =
    Section.add (codes "notes/a.txt") (codes "one\ntwo\n")
    ∷ Section.delete (codes "b")
    ∷ Section.update (codes "c") (some (codes "d")) (call_twice ∷ [])
    ∷ []

sections-AllWritable : AllWritable sections
sections-AllWritable =
    (((refl, refl), refl), ((refl, refl), (((refl, refl), (refl, refl), refl, (refl, tt)), tt)))

sections-AllClean : AllClean (flat_map section_lines sections)
sections-AllClean = (
  refl,
  refl,
  (
    refl,
    refl,
    (
      refl,
      refl,
      (
        refl,
        refl,
        (refl, refl, (refl, refl, (refl, refl, (refl, refl, (refl, refl, (refl, refl, tt)))))),
      ),
    ),
  ),
)

parse-print_example : parse_codex (print_codex sections) ≡ some (ok sections)
parse-print_example = parse-print sections sections-AllWritable sections-AllClean

abbrev rename_run : TextEdit
rename_run = record { old_text = codes "run"; new_text = codes "start" }

-- The kind of line ends is kept.
renamed :
    apply_replacements (codes "a\r\nrun\r\n") (rename_run ∷ []) 0 ≡ done (codes "a\r\nstart\r\n", 6)
unfolding apply_replacements
renamed = refl

apply_replacements-Replaces_example :
    Replaced main_text (rename_run ∷ []) 0 (apply_replacements main_text (rename_run ∷ []) 0)
apply_replacements-Replaces_example = apply_replacements-Replaces main_text (rename_run ∷ []) 0

abbrev step_a : Step
step_a = record {
  kind = PatchChangeKind.update;
  path = codes "a";
  destination = none;
  before = some (codes "one\ntwo\n");
  after = some (codes "one\n2\n");
  destination_before = none;
  section = 0;
}

diff_a :
    (append_diff memory (new_receipt (codes "p")) step_a).diff
    ≡ codes "--- a/a\n+++ b/a\n@@ -2,1 +2,1 @@\n-two\n+2\n"
unfolding append_diff new_receipt
diff_a = refl

new_fits : IsBounded (new_receipt (codes "p"))
unfolding new_receipt
new_fits = omega arith

append_diff-IsBounded_example :
    IsBounded (append_diff memory (new_receipt (codes "p")) step_a)
    × Shows memory
        (new_receipt (codes "p"))
        step_a
        (append_diff memory (new_receipt (codes "p")) step_a)
append_diff-IsBounded_example =
    append_diff-IsBounded memory (new_receipt (codes "p")) step_a new_fits

abbrev disk : Memory
disk = record { visible = (codes "a", codes "old\n") ∷ []; hidden = [] }

abbrev receipt_size : PatchReceipt → Option ℕ
receipt_size r = some 100

-- A good section before one that cannot be planned.
abbrev half_good : ApplyPatchRequest
half_good = record {
  mutation_id = codes "p1";
  cwd = none;
  patch =
      PatchInput.codex
        (codes "*** Begin Patch\n*** Delete File: a\n*** Delete File: b\n*** End Patch");
}

half_good-rejected :
    (execute memory receipt_size half_good (codes "/") 100 disk).0.status ≡ PatchStatus.rejected
unfolding execute parse_codex plan_section target read_file_at map_io fail new_receipt
half_good-rejected = refl

execute-rejected_example :
    (execute memory receipt_size half_good (codes "/") 100 disk).1.visible ≡ disk.visible
execute-rejected_example =
    execute-rejected memory (λ m. m.visible) memory-KeepsFiles receipt_size half_good (codes "/")
      100 disk half_good-rejected

plan_all-AllHold_example :
    Always (λ p. AllHold p.0) (plan_all memory disk sections 0 (codes "/") 100 no_plan)
plan_all-AllHold_example = plan_all-AllHold memory disk sections 0 (codes "/") 100 no_plan
