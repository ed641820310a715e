-- ===== src/Core/Patch/Hunks/Meaning.antt =====
-- The lines of a text and the text of lines, as a reader takes them.
use execution_provider.Prelude.{
  ◌≡◌, refl, sym, ap, ◌∙◌, inl, inr, Bool, true, false, List, [], ◌∷◌, ◌++◌, is_empty, flat_map,
  Bool-cases, if◌then◌else◌, append-nil, append_assoc,
}
use execution_provider.Prelude.Text.{Text, newline, split_lines, join_lines, init}
use execution_provider.Core.Patch.Hunks.{ends_empty, without_sentinel, source_lines, terminated}

-- Without one empty line at the end.
abbrev pub without_blank_end : List Text → List Text
without_blank_end [] = []
without_blank_end (line ∷ []) = if is_empty line then [] else line ∷ []
without_blank_end (line ∷ next ∷ rest) = line ∷ without_blank_end (next ∷ rest)

-- The pieces between newlines, without an empty one behind the last newline.
abbrev pub file_lines : Text → List Text
file_lines text = without_blank_end (split_lines text)

-- Every line with a newline behind it.
abbrev pub ended : List Text → Text
ended lines = flat_map (λ line. line ++ newline ∷ []) lines

without_sentinel_lem : (lines : List Text) → without_sentinel lines ≡ without_blank_end lines
without_sentinel_lem [] = refl
without_sentinel_lem (line ∷ []) = elim (Bool-cases (is_empty line)) [
  | inl empty ↦ rw empty refl
  | inr full ↦ rw full refl
]
without_sentinel_lem (line ∷ next ∷ rest) =
    push (ends_empty (next ∷ rest)) (init (next ∷ rest)) (next ∷ rest)
    ∙ ap (λ ls. line ∷ ls) (without_sentinel_lem (next ∷ rest))
  where
    push :
        (b : Bool) (xs ys : List Text)
        → (if b then line ∷ xs else line ∷ ys) ≡ line ∷ (if b then xs else ys)
    push true xs ys = refl
    push false xs ys = refl

pub source_lines_lem : (text : Text) → source_lines text ≡ file_lines text
unfolding source_lines
source_lines_lem text = without_sentinel_lem (split_lines text)

pub join_lines-terminated :
    (lines : List Text) → join_lines (terminated lines) ≡ ended (without_blank_end lines)
unfolding terminated
join_lines-terminated [] = refl
join_lines-terminated ([] ∷ []) = refl
join_lines-terminated ((c ∷ s) ∷ []) = sym (append-nil ((c ∷ s) ++ newline ∷ []))
join_lines-terminated (line ∷ next ∷ rest) =
    push (ends_empty (next ∷ rest))
    ∙ ap (λ t. line ++ newline ∷ t) (join_lines-terminated (next ∷ rest))
    ∙ sym (append_assoc line (newline ∷ []) (ended (without_blank_end (next ∷ rest))))
  where
    push :
        (b : Bool)
        → join_lines (if b then line ∷ next ∷ rest else (line ∷ next ∷ rest) ++ [] ∷ [])
          ≡ line ++ newline ∷ join_lines (if b then next ∷ rest else (next ∷ rest) ++ [] ∷ [])
    push true = refl
    push false = refl
