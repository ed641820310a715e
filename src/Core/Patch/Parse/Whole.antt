-- ===== src/Core/Patch/Parse/Whole.antt =====
-- A written patch, as one text, is read as its sections.
use execution_provider.Prelude.{
  ◌-◌, ◌≡◌, refl, ap, ◌∙◌, Bool, false, ◌&&◌, some, List, [], ◌∷◌, ◌++◌, append_assoc, map,
  flat_map, length, any, eqb, slice, take, arith, if◌then◌else◌, length-append, append-nil,
  Bool-cases, take-append, take_all, take_zero, is_empty, inl, inr,
}
use execution_provider.Prelude.Text.{
  Text, codes, newline, split_lines, line_endings, strip_return, last,
}
use execution_provider.Core.Errors.{ok, err, invalid}
use execution_provider.Core.Patch.{Section}
use execution_provider.Core.Patch.Parse.{
  patch_lines, parse_codex, read_sections, is_line, first_line,
}
use execution_provider.Core.Patch.Parse.Print.{unlines, section_lines, print_codex, AllWritable}
use execution_provider.Core.Patch.Parse.Lines.{trim_end-append}
use execution_provider.Core.Patch.Parse.Roundtrip.{read_sections-lines}

abbrev pub has_newline : Text → Bool
has_newline t = any (λ c. eqb c newline) t

-- Lines without a newline, and without a carriage return at their end.
abbrev pub AllClean : List Text → Type 0
AllClean [] = Unit
AllClean (line ∷ rest) = (has_newline line ≡ false) × (strip_return line ≡ line) × AllClean rest

split-plain : (line : Text) → has_newline line ≡ false → split_lines line ≡ line ∷ []
split-plain [] h = refl
split-plain (c ∷ line) h = elim (Bool-cases (eqb c newline)) [
  | inl is ↦ absurd (ground arith)
  | inr other ↦ rw (other, split-plain line (ground arith)) refl
]

split-line :
    (line rest : Text)
    → has_newline line ≡ false
    → split_lines (line ++ newline ∷ rest) ≡ line ∷ split_lines rest
split-line [] rest h = refl
split-line (c ∷ line) rest h = elim (Bool-cases (eqb c newline)) [
  | inl is ↦ absurd (ground arith)
  | inr other ↦ rw (other, split-line line rest (ground arith)) refl
]

split-unlines :
    (ls : List Text) (end : Text)
    → AllClean ls
    → has_newline end ≡ false
    → split_lines (unlines ls ++ end) ≡ ls ++ end ∷ []
split-unlines [] end h plain = split-plain end plain
split-unlines (l ∷ ls) end (clean, kept, h) plain =
    ap split_lines (append_assoc l (newline ∷ unlines ls) end)
    ∙ split-line l (unlines ls ++ end) clean
    ∙ ap (◌∷◌ l) (split-unlines ls end h plain)

endings-clean :
    (ls : List Text) (end : Text)
    → AllClean ls
    → is_empty end ≡ false
    → line_endings (ls ++ end ∷ []) ≡ ls ++ end ∷ []
endings-clean [] end h full = rw full refl
endings-clean (l ∷ []) end (clean, kept, h) full = rw (kept, full) refl
endings-clean (l ∷ m ∷ ls) end (clean, kept, h) full =
    rw (kept, endings-clean (m ∷ ls) end h full) refl

strip-clean :
    (ls : List Text) (end : Text)
    → AllClean ls
    → strip_return end ≡ end
    → map strip_return (ls ++ end ∷ []) ≡ ls ++ end ∷ []
strip-clean [] end h kept_end = rw kept_end refl
strip-clean (l ∷ ls) end (clean, kept, h) kept_end = rw (kept, strip-clean ls end h kept_end) refl

last-append : (ls : List Text) (end : Text) → last (ls ++ end ∷ []) ≡ some end
last-append [] end = refl
last-append (l ∷ []) end = refl
last-append (l ∷ m ∷ ls) end = last-append (m ∷ ls) end

patch_lines-print :
    (sections : List Section)
    → AllClean (flat_map section_lines sections)
    → patch_lines (print_codex sections)
      ≡ codes "*** Begin Patch" ∷ (flat_map section_lines sections ++ codes "*** End Patch" ∷ [])
unfolding patch_lines print_codex
patch_lines-print sections h =
    let ls = codes "*** Begin Patch" ∷ flat_map section_lines sections in
    let end = codes "*** End Patch" in
    ap (λ t. map strip_return (line_endings (split_lines t)))
      (trim_end-append (unlines ls) end (refl, refl))
    ∙ ap (λ s. map strip_return (line_endings s)) (split-unlines ls end (refl, refl, h) refl)
    ∙ ap (map strip_return) (endings-clean ls end (refl, refl, h) refl)
    ∙ strip-clean ls end (refl, refl, h) refl

body_of :
    (first : Text) (body : List Text) (end : Text)
    → slice 1 (length (first ∷ (body ++ end ∷ [])) - 1) (first ∷ (body ++ end ∷ [])) ≡ body
body_of first body end =
    let n : length (first ∷ (body ++ end ∷ [])) - 1 - 1 ≡ length body =
      omega (arith, length-append body (end ∷ [])) in
    ap (λ k. take k (body ++ end ∷ [])) n
    ∙ take-append (length body) body (end ∷ [])
    ∙ rw
        (
          take_all (length body) body (omega arith),
          take_zero (length body - length body) (end ∷ []) (omega arith),
        )
        (append-nil body)

-- Sections that the format can express, none of whose lines contains a newline or ends with a
-- carriage return, are written as a text that is read as these very sections: paths, contents,
-- destinations and hunks with their anchors and marks.
pub parse-print :
    (sections : List Section)
    → AllWritable sections
    → AllClean (flat_map section_lines sections)
    → parse_codex (print_codex sections) ≡ some (ok sections)
unfolding parse_codex
parse-print sections writable clean =
    let body = flat_map section_lines sections in
    let begin = codes "*** Begin Patch" in
    let end = codes "*** End Patch" in
    ap
      (λ all.
        if is_line "*** Begin Patch" (first_line all) && is_line "*** End Patch" (last all)
        then read_sections (length (slice 1 (length all - 1) all)) (slice 1 (length all - 1) all)
        else some (err (invalid "expected *** Begin Patch and *** End Patch")))
      (patch_lines-print sections clean)
    ∙ rw (last-append (begin ∷ body) end, body_of begin body end)
        (read_sections-lines (length body) sections writable (omega arith))
