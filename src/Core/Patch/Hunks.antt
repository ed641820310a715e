-- ===== src/Core/Patch/Hunks.antt =====
-- packages/process-execution-core/src/filesystem/patch.rs: `apply_codex`, which finds the hunks of an
-- updated file in order and puts them in place. Messages leave out the number of the hunk, and sums of
-- positions in one file do not overflow.
pub mod Meaning
pub mod Placement
pub mod Rewriting
pub mod Success
use execution_provider.Prelude.{
  ℕ, zero, ◌+◌, Bool, true, false, ◌||◌, Option, none, some, List, [], ◌∷◌, ◌++◌, not, ltb, length,
  is_empty, if◌then◌else◌,
}
use execution_provider.Prelude.Text.{Text, split_lines, join_lines, last, init}
use execution_provider.Core.Errors.{Result, ok, err, invalid, ok_or, fail_if, ◌>>=◌, ◌>>◌}
use execution_provider.Core.Patch.{Chunk}
use execution_provider.Core.Patch.Seek.{seek}
use execution_provider.Core.Patch.Splice.{Replacement, splice_all, sort_by_start}

-- `last().is_some_and(String::is_empty)`
abbrev pub ends_empty : List Text → Bool
ends_empty lines = elim (last lines) [ none ↦ false | some line ↦ is_empty line ]

abbrev pub without_sentinel : List Text → List Text
without_sentinel lines = if ends_empty lines then init lines else lines

-- The lines of a file, without the empty one behind its last newline.
unfoldable pub source_lines : Text → List Text
source_lines text = without_sentinel (split_lines text)

-- Lines of which the last is empty.
unfoldable pub terminated : List Text → List Text
terminated lines = if ends_empty lines then lines else lines ++ [] ∷ []

-- The search for an anchor, from the cursor on, and the cursor behind it.
unfoldable pub anchored : List Text → Option Text → ℕ → ℕ → Result (ℕ × ℕ)
anchored lines none cursor work = ok (cursor, work)
anchored lines (some anchor) cursor work =
    seek lines (anchor ∷ []) cursor false work >>= λ (found, spent).
    ok_or found (invalid "hunk: context anchor not found") >>= λ index. ok (index + 1, spent)

-- The old lines as they were found, and what takes their place.
pub record Located : Type 0 where
  pub index : ℕ
  pub old : List Text
  pub new : List Text

abbrev pub located : List Text → List Text → Option ℕ → Option Located
located old new none = none
located old new (some index) = some (record { index = index; old = old; new = new })

-- The search for the old lines, if need be once more without a trailing empty line.
unfoldable pub find_hunk : List Text → Chunk → ℕ → ℕ → Result (Option Located × ℕ)
find_hunk lines chunk cursor work = seek lines chunk.old cursor chunk.eof work >>= λ (found, spent).
    elim found [
      | some index ↦ ok (located chunk.old chunk.new (some index), spent)
      | none ↦
          if ends_empty chunk.old
          then (seek lines (init chunk.old) cursor chunk.eof spent >>= λ (again, more).
              ok (located (init chunk.old) (without_sentinel chunk.new) again, more))
          else ok (none, spent)
    ]

-- The replacement of a hunk, with the variables of the loop behind it.
pub record Placed : Type 0 where
  pub range : Replacement Text
  pub cursor : ℕ
  pub last_end : ℕ
  pub work : ℕ

abbrev pub out_of_order : List Text → Located → ℕ → ℕ → Bool
out_of_order lines at cursor last_end =
    ltb at.index cursor || ltb at.index last_end || ltb (length lines) (at.index + length at.old)

abbrev pub place_at : Located → ℕ → Placed
place_at at work = record {
  range = record { start = at.index; count = length at.old; new = at.new };
  cursor = at.index + length at.old;
  last_end = at.index + length at.old;
  work = work;
}

-- A hunk without old lines is an insertion at the end and does not move the cursor.
abbrev pub place_end : List Text → Chunk → ℕ → ℕ → ℕ → Placed
place_end lines chunk cursor last_end work = record {
  range = record { start = length lines; count = 0; new = chunk.new };
  cursor = cursor;
  last_end = last_end;
  work = work;
}

-- One round of the loop over the hunks.
unfoldable pub place : List Text → Chunk → ℕ → ℕ → ℕ → Result Placed
unfolding anchored find_hunk
place lines chunk start last_end before =
    anchored lines chunk.anchor start before >>= λ (cursor, work).
    if is_empty chunk.old
    then ok (place_end lines chunk cursor last_end work)
    else find_hunk lines chunk cursor work >>= λ (found, spent).
        ok_or found (invalid "hunk: expected lines not found") >>= λ at.
        fail_if (out_of_order lines at cursor last_end)
          (invalid "hunk: overlapping or out-of-order range")
        >> ok (place_at at spent)

unfoldable pub locate : List Text → List Chunk → ℕ → ℕ → ℕ → Result (List (Replacement Text) × ℕ)
unfolding place
locate lines [] cursor last_end work = ok ([], work)
locate lines (chunk ∷ chunks) cursor last_end work = place lines chunk cursor last_end work >>= λ p.
    locate lines chunks p.cursor p.last_end p.work >>= λ (ranges, spent).
    ok (p.range ∷ ranges, spent)

unfoldable pub apply_codex : Text → List Chunk → ℕ → Result (Text × ℕ)
unfolding locate source_lines terminated
apply_codex text chunks work =
    let lines = source_lines text in
    locate lines chunks 0 0 work >>= λ (ranges, spent).
    ok (join_lines (terminated (splice_all (sort_by_start ranges) lines)), spent)
