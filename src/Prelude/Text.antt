-- ===== src/Prelude/Text.antt =====
-- Rust's `str` as the list of its code points, where the program walks characters or lines: the
-- methods that the patches of packages/process-execution-core/src/filesystem/patch.rs call. `size` is
-- the length in bytes of the UTF-8.
use Prim.Native.Nat.{ℕ}
use Prim.Native.Char.{code}
use Prim.Native.String.{String}
use mathlib.Core.Bool.{Bool, true, false, ◌&&◌, ◌||◌}
use mathlib.Core.Option.{Option, none, some}
use mathlib.Core.List.{List, [], ◌∷◌, ◌++◌}
use execution_provider.Prelude.Tests.{if◌then◌else◌, eqb, ltb, leb, is_some, eqb_iff, Bool-cases}
use execution_provider.Prelude.Keys.{Eq}
use mathlib.Core.Path.{◌≡◌, refl, sym, ap, ap₂, ◌∙◌}
use mathlib.Core.Logic.{◌↔◌, inl, inr}
use native.Mathlib.Omega.{arith}
use execution_provider.Prelude.Lists.{is_empty, sum_by}

abbrev pub Text : Type 0
Text = List ℕ

abbrev pub codes : String → Text
codes String.[] = []
codes (String.◌∷◌ c s) = code c ∷ codes s

abbrev pub newline : ℕ
newline = 10

abbrev pub carriage_return : ℕ
carriage_return = 13

abbrev pub same_text : Text → Text → Bool
same_text [] [] = true
same_text [] (d ∷ t) = false
same_text (c ∷ s) [] = false
same_text (c ∷ s) (d ∷ t) = if eqb c d then same_text s t else false

-- `char::len_utf8`
abbrev pub width : ℕ → ℕ
width c = if ltb c 128 then 1 else if ltb c 2048 then 2 else if ltb c 65536 then 3 else 4

-- `str::len`
abbrev pub size : Text → ℕ
size t = sum_by width t

-- `lo..=hi`
abbrev pub between : ℕ → ℕ → ℕ → Bool
between lo hi c = leb lo c && leb c hi

-- `char::is_whitespace`: Unicode's White_Space.
abbrev pub is_whitespace : ℕ → Bool
is_whitespace c =
    between 9 13 c
    || eqb c 32
    || eqb c 133
    || eqb c 160
    || eqb c 5760
    || between 8192 8202 c
    || between 8232 8233 c
    || eqb c 8239
    || eqb c 8287
    || eqb c 12288

abbrev pub trim_start : Text → Text
trim_start [] = []
trim_start (c ∷ s) = if is_whitespace c then trim_start s else c ∷ s

-- A character stays if it is no whitespace or one behind it stays.
abbrev pub keep_end : ℕ → Text → Text
keep_end c rest = if is_whitespace c && is_empty rest then [] else c ∷ rest

abbrev pub trim_end : Text → Text
trim_end [] = []
trim_end (c ∷ s) = keep_end c (trim_end s)

abbrev pub trim : Text → Text
trim s = trim_end (trim_start s)

abbrev pub strip_prefix : Text → Text → Option Text
strip_prefix [] s = some s
strip_prefix (p ∷ ps) [] = none
strip_prefix (p ∷ ps) (c ∷ s) = if eqb p c then strip_prefix ps s else none

abbrev pub starts_with : Text → Text → Bool
starts_with prefix s = is_some (strip_prefix prefix s)

abbrev pub push_first : ℕ → List Text → List Text
push_first c [] = (c ∷ []) ∷ []
push_first c (piece ∷ pieces) = (c ∷ piece) ∷ pieces

-- `s.split('\n')`
abbrev pub split_lines : Text → List Text
split_lines [] = [] ∷ []
split_lines (c ∷ s) =
    let rest = split_lines s in if eqb c newline then [] ∷ rest else push_first c rest

-- `strip_suffix('\r')`, or the text itself.
abbrev pub strip_return : Text → Text
strip_return [] = []
strip_return (c ∷ []) = if eqb c carriage_return then [] else c ∷ []
strip_return (c ∷ d ∷ s) = c ∷ strip_return (d ∷ s)

-- What `str::lines` makes of the pieces between newlines: each but the last loses a carriage return,
-- and the last counts only if it is not empty.
abbrev pub line_endings : List Text → List Text
line_endings [] = []
line_endings (last ∷ []) = if is_empty last then [] else last ∷ []
line_endings (line ∷ next ∷ rest) = strip_return line ∷ line_endings (next ∷ rest)

-- `str::lines`
abbrev pub lines : Text → List Text
lines s = line_endings (split_lines s)

-- `join("\n")`
abbrev pub join_lines : List Text → Text
join_lines [] = []
join_lines (line ∷ []) = line
join_lines (line ∷ next ∷ rest) = line ++ newline ∷ join_lines (next ∷ rest)

-- `last` of a slice, in an option.
abbrev pub last {ℓ} : {A : Type ℓ} → List A → Option A
last [] = none
last (x ∷ []) = some x
last (x ∷ y ∷ ys) = last (y ∷ ys)

-- `&s[..s.len() - 1]`
abbrev pub init {ℓ} : {A : Type ℓ} → List A → List A
init [] = []
init (x ∷ []) = []
init (x ∷ y ∷ ys) = x ∷ init (y ∷ ys)

pub same_text_refl : (s : Text) → same_text s s ≡ true
same_text_refl [] = refl
same_text_refl (c ∷ s) = ground (arith, same_text_refl s)

pub same_text-eq : (s t : Text) → same_text s t ≡ true → s ≡ t
same_text-eq [] [] h = refl
same_text-eq [] (d ∷ t) h = absurd (ground arith)
same_text-eq (c ∷ s) [] h = absurd (ground arith)
same_text-eq (c ∷ s) (d ∷ t) h = elim (Bool-cases (eqb c d)) [
  | inl is ↦ ap₂ (λ x xs. x ∷ xs) (ground (arith, eqb_iff c d)) (same_text-eq s t (ground arith))
  | inr other ↦ absurd (ground arith)
]

pub same_text_iff : (s t : Text) → (same_text s t ≡ true) ↔ (s ≡ t)
same_text_iff s t = (same_text-eq s t, λ e. ap (same_text s) (sym e) ∙ same_text_refl s)

instance abbrev pub text_eq : Eq Text
text_eq = record { beq = same_text; beq_iff = same_text_iff }
