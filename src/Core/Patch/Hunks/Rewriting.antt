-- ===== src/Core/Patch/Hunks/Rewriting.antt =====
-- What an updated file is, from its lines and its hunks.
use execution_provider.Prelude.{ℕ, ◌≤◌, ◌≡◌, List, length}
use execution_provider.Prelude.Text.{Text}
use execution_provider.Core.Errors.{Result, ok, err}
use execution_provider.Core.Patch.{Chunk, max_match_work}
use execution_provider.Core.Patch.Splice.{Replacement, sort_by_start, Ordered, rebuilt}
use execution_provider.Core.Patch.Hunks.Meaning.{without_blank_end, file_lines, ended}
use execution_provider.Core.Patch.Hunks.Placement.{AllPlaced}

abbrev LocateKept : List Text → List Chunk → ℕ → ℕ → Result (List (Replacement Text) × ℕ) → Type 0
LocateKept lines chunks last_end work (ok (rs, spent)) =
    AllPlaced lines chunks rs
    × Ordered last_end (length lines) (sort_by_start rs)
    × (work ≤ max_match_work → spent ≤ max_match_work)
LocateKept lines chunks last_end work (err e) = Unit

-- A text that is updated by hunks, where the answer is a success, for the lines of the file: every
-- hunk has a range of them where it may be put, the ranges do not overlap, and the text is what a reader
-- from the left expects, each line with a newline behind it, without one empty line at the end.
abbrev pub RewrittenLines : List Text → List Chunk → Text → Type 0
RewrittenLines lines chunks result =
    (rs : List (Replacement Text)) × AllPlaced lines chunks rs
    × Ordered 0 (length lines) (sort_by_start rs)
    × (result ≡ ended (without_blank_end (rebuilt 0 lines (sort_by_start rs))))

pub Rewritten : Text → List Chunk → Result (Text × ℕ) → Type 0
Rewritten text chunks (ok (result, spent)) =
    RewrittenLines (file_lines text) chunks result × (spent ≤ max_match_work)
Rewritten text chunks (err e) = Unit
