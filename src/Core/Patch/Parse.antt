-- ===== src/Core/Patch/Parse.antt =====
-- packages/process-execution-core/src/filesystem/patch.rs: `parse_codex`. The loop's index into the
-- lines is the list of the lines that are left, without the last one. Messages leave out line numbers.
pub mod Totality
pub mod Print
pub mod Lines
pub mod Roundtrip
pub mod Whole
use execution_provider.Prelude.{
  ℕ, zero, suc, ◌-◌, Bool, true, false, ◌&&◌, ◌||◌, not, Option, none, some, List, [], ◌∷◌, ◌++◌,
  map, length, slice, is_empty, if◌then◌else◌, String,
}
use execution_provider.Prelude.Text.{
  Text, codes, newline, same_text, trim, starts_with, strip_prefix, strip_return, lines, last,
}
use execution_provider.Core.Errors.{
  Result, ok, err, error, ErrorCode, invalid, ok_or, fail_if, ◌>>=◌, ◌>>◌,
}
use execution_provider.Core.Patch.{Section, Chunk}

-- The lines of an added file up to the next directive, and the lines from there on.
unfoldable pub read_added : List Text → Result (Text × List Text)
read_added [] = ok ([], [])
read_added (line ∷ rest) =
    if starts_with (codes "*** ") line
    then ok ([], line ∷ rest)
    else ok_or (strip_prefix (codes "+") line) (invalid "invalid add line") >>= λ text.
        read_added rest >>= λ (content, left). ok (text ++ newline ∷ content, left)

abbrev pub no_chunk : Chunk
no_chunk = record { anchor = none; old = []; new = []; eof = false }

-- The variables of the loop over the lines of an updated file.
pub record ChunkState : Type 0 where
  pub chunks : List Chunk
  pub chunk : Chunk
  pub active : Bool

abbrev pub no_chunks : ChunkState
no_chunks = record { chunks = []; chunk = no_chunk; active = false }

-- `active && (!chunk.old.is_empty() || !chunk.new.is_empty())`
abbrev pub has_chunk : ChunkState → Bool
has_chunk s = s.active && (not (is_empty s.chunk.old) || not (is_empty s.chunk.new))

abbrev pub flushed : ChunkState → ChunkState
flushed s =
    if has_chunk s then record s { chunks = s.chunks ++ s.chunk ∷ []; chunk = no_chunk } else s

abbrev pub with_anchor : Chunk → Option Text → Chunk
with_anchor chunk anchor = record chunk { anchor = anchor }

abbrev pub with_lines : Chunk → List Text → List Text → Chunk
with_lines chunk old new = record chunk { old = chunk.old ++ old; new = chunk.new ++ new }

abbrev pub with_eof : Chunk → Chunk
with_eof chunk = record chunk { eof = true }

abbrev pub open_chunk : ChunkState → Option Text → ChunkState
open_chunk s anchor = record s { chunk = with_anchor s.chunk anchor; active = true }

abbrev pub push_lines : ChunkState → List Text → List Text → ChunkState
push_lines s old new = record s { chunk = with_lines s.chunk old new; active = true }

abbrev pub end_of_file : Text
end_of_file = codes "*** End of File"

-- A changed line by its first character.
unfoldable pub read_change : ChunkState → Text → Result ChunkState
read_change s line = elim (strip_prefix (codes "+") line) [
  | some text ↦ ok (push_lines s [] (text ∷ []))
  | none ↦ elim (strip_prefix (codes "-") line) [
    | some text ↦ ok (push_lines s (text ∷ []) [])
    | none ↦ elim (strip_prefix (codes " ") line) [
      | some text ↦ ok (push_lines s (text ∷ []) (text ∷ []))
      | none ↦ err (invalid "invalid update line")
    ]
  ]
]

unfoldable pub read_update_line : ChunkState → Text → Result ChunkState
unfolding read_change
read_update_line s line =
    if same_text line (codes "@@") || starts_with (codes "@@ ") line
    then ok (open_chunk (flushed s) (strip_prefix (codes "@@ ") line))
    else if same_text line end_of_file
    then ok (record s { chunk = with_eof s.chunk })
    else read_change s line

-- A directive other than the mark of a file's end.
abbrev pub ends_section : Text → Bool
ends_section line = starts_with (codes "*** ") line && not (same_text line end_of_file)

-- The lines of an updated file up to the next directive, and the lines from there on.
unfoldable pub read_update_lines : ChunkState → List Text → Result (ChunkState × List Text)
unfolding read_update_line
read_update_lines s [] = ok (s, [])
read_update_lines s (line ∷ rest) =
    if ends_section line
    then ok (s, line ∷ rest)
    else read_update_line s line >>= λ next. read_update_lines next rest

-- The destination of a move, if the next line names one, and the lines behind it.
unfoldable pub read_move : List Text → Option Text × List Text
read_move [] = (none, [])
read_move (line ∷ rest) = elim (strip_prefix (codes "*** Move to: ") (trim line)) [
  | some to ↦ (some to, rest)
  | none ↦ (none, line ∷ rest)
]

-- The section of an updated file, behind its directive.
unfoldable pub read_update : Text → List Text → Result (Section × List Text)
unfolding read_update_lines read_move
read_update path rest =
    let move = read_move rest in
    read_update_lines no_chunks move.1 >>= λ (s, left).
    let chunks = (flushed s).chunks in
    fail_if (is_empty chunks) (invalid "update section has no changes")
    >> ok (Section.update path move.0 chunks, left)

abbrev pub is_routing : Text → Bool
is_routing header =
    starts_with (codes "*** Environment ID:") header
    || starts_with (codes "*** Workdir:") header
    || starts_with (codes "*** Workdir ") header

pub data Directive : Type 0 where
  routing unexpected : Directive
  add delete update : Text → Directive

-- The tests of a section's first line, in their order.
unfoldable pub directive : Text → Directive
directive header =
    if is_routing header
    then Directive.routing
    else elim (strip_prefix (codes "*** Add File: ") header) [
      | some path ↦ Directive.add path
      | none ↦ elim (strip_prefix (codes "*** Delete File: ") header) [
        | some path ↦ Directive.delete path
        | none ↦ elim (strip_prefix (codes "*** Update File: ") header) [
          | some path ↦ Directive.update path
          | none ↦ Directive.unexpected
        ]
      ]
    ]

-- One section behind its directive, and the lines behind it.
unfoldable pub read_section : Directive → List Text → Result (Section × List Text)
unfolding read_added read_update
read_section Directive.routing rest =
    err (error ErrorCode.unsupported_operation "embedded patch routing directives are unsupported")
read_section (Directive.add path) rest =
    read_added rest >>= λ (content, left). ok (Section.add path content, left)
read_section (Directive.delete path) rest = ok (Section.delete path, rest)
read_section (Directive.update path) rest = read_update path rest
read_section Directive.unexpected rest = err (invalid "unexpected patch directive")

abbrev pub cons_section : Section → Option (Result (List Section)) → Option (Result (List Section))
cons_section section none = none
cons_section section (some r) = some (r >>= λ sections. ok (section ∷ sections))

-- The loop over the sections. It needs no more rounds than there are lines, and without a round left
-- it has no answer.
unfoldable pub read_sections : ℕ → List Text → Option (Result (List Section))
unfolding read_section directive
read_sections fuel [] = some (ok [])
read_sections zero (line ∷ rest) = none
read_sections (suc fuel) (line ∷ rest) = elim (read_section (directive (trim line)) rest) [
  | err e ↦ some (err e)
  | ok (section, left) ↦ cons_section section (read_sections fuel left)
]

abbrev pub is_line : String → Option Text → Bool
is_line expected none = false
is_line expected (some line) = same_text (trim line) (codes expected)

abbrev pub first_line : List Text → Option Text
first_line [] = none
first_line (line ∷ rest) = some line

-- The lines of a patch.
unfoldable pub patch_lines : Text → List Text
patch_lines text = map strip_return (lines (trim text))

unfoldable pub parse_codex : Text → Option (Result (List Section))
unfolding read_sections patch_lines
parse_codex text =
    let all = patch_lines text in
    let body = slice 1 (length all - 1) all in
    if is_line "*** Begin Patch" (first_line all) && is_line "*** End Patch" (last all)
    then read_sections (length body) body
    else some (err (invalid "expected *** Begin Patch and *** End Patch"))
