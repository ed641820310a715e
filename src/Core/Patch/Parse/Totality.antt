-- ===== src/Core/Patch/Parse/Totality.antt =====
-- The parser of patches always has an answer.
use execution_provider.Prelude.{
  ℕ, zero, suc, ◌≤◌, ◌≡◌, refl, true, Option, none, some, List, [], ◌∷◌, length, is_some, arith,
  Bool-cases, is_empty, slice, inl, inr, ◌++◌, ◌-◌, ◌&&◌,
}
use execution_provider.Prelude.Text.{Text, codes, newline, last, starts_with, strip_prefix, trim}
use execution_provider.Core.Errors.{Result, ok, err, ok_or, fail_if, invalid, ◌>>=◌, ◌>>◌}
use execution_provider.Core.Patch.{Section}
use execution_provider.Core.Patch.Parse.{
  read_added, read_update_lines, read_update_line, ChunkState, read_move, read_update, read_section,
  read_sections, parse_codex, ends_section, flushed, no_chunks, Directive, directive, cons_section,
  patch_lines, is_line, first_line,
}

-- An answer with no more lines left than there were.
abbrev Shrinks {ℓ} : {A : Type ℓ} → List Text → Result (A × List Text) → Type 0
Shrinks rest (ok (a, left)) = length left ≤ length rest
Shrinks rest (err e) = Unit

read_added-Shrinks : (rest : List Text) → Shrinks rest (read_added rest)
unfolding read_added
read_added-Shrinks [] = omega arith
read_added-Shrinks (line ∷ rest) = elim (Bool-cases (starts_with (codes "*** ") line)) [
  | inl ends ↦ rw ends (omega arith)
  | inr goes ↦
      rw goes (go (strip_prefix (codes "+") line) (read_added rest) (read_added-Shrinks rest))
]
  where
    go :
        (text : Option Text) (r : Result (Text × List Text))
        → Shrinks rest r
        → Shrinks (line ∷ rest) (
            ok_or text (invalid "invalid add line") >>= λ text.
            r >>= λ (content, left). ok (text ++ newline ∷ content, left))
    go none r h = tt
    go (some text) (err e) h = tt
    go (some text) (ok (content, left)) h = omega arith

read_update_lines-Shrinks :
    (s : ChunkState) (rest : List Text) → Shrinks rest (read_update_lines s rest)
unfolding read_update_lines
read_update_lines-Shrinks s [] = omega arith
read_update_lines-Shrinks s (line ∷ rest) = elim (Bool-cases (ends_section line)) [
  | inl ends ↦ rw ends (omega arith)
  | inr goes ↦ rw goes (go (read_update_line s line) (λ next. read_update_lines-Shrinks next rest))
]
  where
    longer : (r : Result (ChunkState × List Text)) → Shrinks rest r → Shrinks (line ∷ rest) r
    longer (err e) h = tt
    longer (ok (s, left)) h = omega arith

    go :
        (r : Result ChunkState)
        → ((next : ChunkState) → Shrinks rest (read_update_lines next rest))
        → Shrinks (line ∷ rest) (r >>= λ next. read_update_lines next rest)
    go (err e) h = tt
    go (ok next) h = longer (read_update_lines next rest) (h next)

read_move-le : (rest : List Text) → length (read_move rest).1 ≤ length rest
unfolding read_move
read_move-le [] = omega arith
read_move-le (line ∷ rest) = go (strip_prefix (codes "*** Move to: ") (trim line))
  where
    go :
        (to : Option Text)
        → length
            (elim to as (λ o. Option Text × List Text) [
              | some to ↦ (some to, rest)
              | none ↦ (none, line ∷ rest)
            ]).1
          ≤ suc (length rest)
    go none = omega arith
    go (some to) = omega arith

read_update-Shrinks : (path : Text) (rest : List Text) → Shrinks rest (read_update path rest)
unfolding read_update
read_update-Shrinks path rest =
    go (read_update_lines no_chunks (read_move rest).1)
      (read_update_lines-Shrinks no_chunks (read_move rest).1)
  where
    go :
        (r : Result (ChunkState × List Text))
        → Shrinks (read_move rest).1 r
        → Shrinks rest (
            r >>= λ (s, left).
            let chunks = (flushed s).chunks in
            fail_if (is_empty chunks) (invalid "update section has no changes")
            >> ok (Section.update path (read_move rest).0 chunks, left))
    go (err e) h = tt
    go (ok (s, left)) h = elim (Bool-cases (is_empty (flushed s).chunks)) [
      | inl none_there ↦ rw none_there tt
      | inr there ↦ rw there (omega (arith, read_move-le rest, h))
    ]

read_section-Shrinks : (d : Directive) (rest : List Text) → Shrinks rest (read_section d rest)
unfolding read_section
read_section-Shrinks Directive.routing rest = tt
read_section-Shrinks (Directive.add path) rest = go (read_added rest) (read_added-Shrinks rest)
  where
    go :
        (r : Result (Text × List Text))
        → Shrinks rest r
        → Shrinks rest (r >>= λ (content, left). ok (Section.add path content, left))
    go (err e) h = tt
    go (ok (content, left)) h = h
read_section-Shrinks (Directive.delete path) rest = omega arith
read_section-Shrinks (Directive.update path) rest = read_update-Shrinks path rest
read_section-Shrinks Directive.unexpected rest = tt

fuel_cons :
    (section : Section) (r : Option (Result (List Section)))
    → is_some r ≡ true
    → is_some (cons_section section r) ≡ true
fuel_cons section none h = h
fuel_cons section (some r) h = refl

-- As many rounds as there are lines are enough: every section takes its directive away.
pub read_sections-IsSome :
    (fuel : ℕ) (rest : List Text) → length rest ≤ fuel → is_some (read_sections fuel rest) ≡ true
unfolding read_sections
read_sections-IsSome fuel [] h = refl
read_sections-IsSome zero (line ∷ rest) h = absurd (omega arith)
read_sections-IsSome (suc fuel) (line ∷ rest) h =
    go (read_section (directive (trim line)) rest)
      (read_section-Shrinks (directive (trim line)) rest)
      (λ left le. read_sections-IsSome fuel left (omega arith))
  where
    go :
        (r : Result (Section × List Text))
        → Shrinks rest r
        → ((left : List Text)
            → length left ≤ length rest
            → is_some (read_sections fuel left) ≡ true)
        → is_some (elim r as (λ o. Option (Result (List Section))) [
          | err e ↦ some (err e)
          | ok (section, left) ↦ cons_section section (read_sections fuel left)
        ])
          ≡ true
    go (err e) shrinks later = refl
    go (ok (section, left)) shrinks later =
        fuel_cons section (read_sections fuel left) (later left shrinks)

-- The parser of a patch always comes to an answer, whatever the text: its loop needs no more rounds
-- than there are lines.
pub parse_codex-IsSome : (text : Text) → is_some (parse_codex text) ≡ true
unfolding parse_codex
parse_codex-IsSome text =
    let all = patch_lines text in
    let body = slice 1 (length all - 1) all in
    elim (Bool-cases
      (is_line "*** Begin Patch" (first_line all) && is_line "*** End Patch" (last all))) [
        | inl is ↦ rw is (read_sections-IsSome (length body) body (omega arith))
        | inr other ↦ rw other refl
      ]
