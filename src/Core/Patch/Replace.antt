-- ===== src/Core/Patch/Replace.antt =====
-- packages/process-execution-core/src/filesystem/patch.rs: `apply_replacements`, which replaces texts
-- that occur once. A position counts characters here, where the source counts bytes of the UTF-8; a
-- match begins and ends between characters. The work counts bytes.
pub mod Edits
use execution_provider.Prelude.{
  ℕ, suc, ◌+◌, Bool, true, false, ◌&&◌, ◌||◌, Option, none, some, List, [], ◌∷◌, ◌++◌, map,
  flat_map, eqb, ltb, length, drop, is_empty, is_some, if◌then◌else◌,
}
use execution_provider.Prelude.Text.{Text, newline, carriage_return, same_text, size, starts_with}
use execution_provider.Core.Errors.{Error, error, ErrorCode, invalid}
use execution_provider.Core.Patch.{TextEdit, max_match_work}
use execution_provider.Core.Patch.Splice.{Replacement, splice_all, sort_by}

-- `std::result::Result<A, (Error, I)>`, where `I` says which edit or section failed.
pub data Attempt {ℓ κ} (I : Type ℓ) (A : Type κ) : Type (ℓ ⊔ κ) where
  done : A → Attempt I A
  failed : Error → I → Attempt I A

infixl 5 ◌>>=◌
abbrev pub ◌>>=◌ {ℓ κ μ} :
    {I : Type ℓ} {A : Type κ} {B : Type μ} → Attempt I A → (A → Attempt I B) → Attempt I B
failed e i >>= next = failed e i
done a >>= next = next a

abbrev pub reject {ℓ κ} : {I : Type ℓ} {B : Type κ} → Bool → Error → I → Attempt I B → Attempt I B
reject true e i rest = failed e i
reject false e i rest = rest

-- `str::find`
abbrev pub find : Text → Text → Option ℕ
find pattern [] = if is_empty pattern then some 0 else none
find pattern (c ∷ s) =
    let later = find pattern s in
    if starts_with pattern (c ∷ s)
    then some 0
    else elim later [ none ↦ none | some i ↦ some (suc i) ]

abbrev pub starts_newline : Text → Bool
starts_newline [] = false
starts_newline (c ∷ s) = eqb c newline

-- `replace("\r\n", "\n")`
abbrev pub join_returns : Text → Text
join_returns [] = []
join_returns (c ∷ s) =
    let rest = join_returns s in
    if eqb c carriage_return && starts_newline s then rest else c ∷ rest

abbrev pub plain_newline : ℕ → ℕ
plain_newline c = if eqb c carriage_return then newline else c

-- `replace("\r\n", "\n").replace('\r', "\n")`
abbrev pub unify_newlines : Text → Text
unify_newlines s = map plain_newline (join_returns s)

-- `replace('\n', "\r\n")`
abbrev pub split_newlines : Text → Text
split_newlines s =
    flat_map (λ c. if eqb c newline then carriage_return ∷ newline ∷ [] else c ∷ []) s

abbrev pub byte_order_mark : ℕ
byte_order_mark = 65279

abbrev pub has_mark : Text → Bool
has_mark [] = false
has_mark (c ∷ s) = eqb c byte_order_mark

abbrev pub without_mark : Text → Text
without_mark s = if has_mark s then drop 1 s else s

-- Whether the first newline ends a line with a carriage return.
abbrev pub uses_returns : Text → Bool
uses_returns s = elim (find (carriage_return ∷ newline ∷ []) s) [
  | none ↦ false
  | some i ↦ elim (find (newline ∷ []) s) [ none ↦ false | some j ↦ eqb j (i + 1) ]
]

pub record EditRange : Type 0 where
  pub range : Replacement ℕ
  pub edit : ℕ

-- One round of the loop over the edits.
unfoldable pub find_edit : Text → TextEdit → ℕ → ℕ → Attempt ℕ (EditRange × ℕ)
find_edit base edit i work =
    let old = unify_newlines edit.old_text in
    let spent = work + size base in
    reject (is_empty old) (invalid "oldText must not be empty") i (
      reject (ltb max_match_work spent)
        (error ErrorCode.resource_limit "replacement matching work limit exceeded") i
        (elim (find old base) [
          | none ↦ failed (invalid "oldText not found") i
          | some first ↦
              reject (is_some (find old (drop (first + length old) base)))
                (invalid "oldText is ambiguous") i
                (done (
                  record {
                    range = record {
                      start = first;
                      count = length old;
                      new = unify_newlines edit.new_text;
                    };
                    edit = i;
                  },
                  spent,
                ))
        ]))

unfoldable pub find_edits : Text → List TextEdit → ℕ → ℕ → Attempt ℕ (List EditRange × ℕ)
unfolding find_edit
find_edits base [] i work = done ([], work)
find_edits base (edit ∷ edits) i work = find_edit base edit i work >>= λ (range, spent).
    find_edits base edits (i + 1) spent >>= λ (ranges, total). done (range ∷ ranges, total)

-- `ranges.windows(2).find(|p| p[0].1 > p[1].0)`
abbrev pub find_overlap : List EditRange → Option ℕ
find_overlap [] = none
find_overlap (r ∷ []) = none
find_overlap (r ∷ s ∷ rs) =
    let rest = find_overlap (s ∷ rs) in
    if ltb s.range.start (r.range.start + r.range.count) then some s.edit else rest

abbrev pub sort_edits : List EditRange → List EditRange
sort_edits rs = sort_by (λ r. r.range.start) rs

abbrev pub ranges_of : List EditRange → List (Replacement ℕ)
ranges_of rs = map (λ r. r.range) rs

-- The line ends and the mark of the original text.
abbrev pub restored : Text → Text → Text
restored text result =
    let body = if uses_returns (without_mark text) then split_newlines result else result in
    if has_mark text then byte_order_mark ∷ body else body

abbrev pub base_of : Text → Text
base_of text = unify_newlines (without_mark text)

-- The sorted ranges put in place, unless two overlap or nothing changes.
unfoldable pub put_edits : Text → List EditRange → ℕ → Attempt ℕ (Text × ℕ)
put_edits text ranges spent = elim (find_overlap ranges) [
  | some edit ↦ failed (invalid "replacement ranges overlap") edit
  | none ↦
      let result = splice_all (ranges_of ranges) (base_of text) in
      reject (same_text result (base_of text)) (invalid "replacement produced no changes") 0
        (done (restored text result, spent))
]

unfoldable pub apply_replacements : Text → List TextEdit → ℕ → Attempt ℕ (Text × ℕ)
unfolding find_edits put_edits
apply_replacements text edits work = find_edits (base_of text) edits 0 work >>= λ (found, spent).
    put_edits text (sort_edits found) spent
