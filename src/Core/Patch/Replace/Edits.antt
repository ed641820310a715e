-- ===== src/Core/Patch/Replace/Edits.antt =====
-- What replacing texts in a file gives.
use execution_provider.Prelude.{
  ℕ, suc, ◌+◌, ◌*◌, ◌≤◌, ◌≡◌, refl, sym, ap, ap₂, subst, ◌∙◌, inl, inr, Bool, true, false, ◌&&◌,
  if◌then◌else◌, ◌++◌, Option, none, some, List, [], ◌∷◌, length, take, drop, is_empty, ltb, eqb,
  arith, Bool-cases, Option-cases, eqb_iff,
}
use execution_provider.Prelude.Text.{Text, newline, carriage_return, size, same_text, starts_with}
use execution_provider.Core.Errors.{Error}
use execution_provider.Core.Patch.{TextEdit, max_match_work}
use execution_provider.Core.Patch.Splice.{
  Replacement, splice_all, insert_by, Ordered, rebuilt, splice_all-Rebuilds,
}
use execution_provider.Core.Patch.Replace.{
  Attempt, done, failed, ◌>>=◌, find, unify_newlines, without_mark, EditRange, find_edit,
  find_edits, find_overlap, sort_edits, ranges_of, restored, base_of, uses_returns, split_newlines,
  starts_newline, has_mark, byte_order_mark, put_edits, apply_replacements,
}

starts_with-take :
    (pattern s : Text)
    → starts_with pattern s ≡ true
    → (take (length pattern) s ≡ pattern) × (length pattern ≤ length s)
starts_with-take [] s h = (refl, omega arith)
starts_with-take (p ∷ ps) [] h = absurd (ground arith)
starts_with-take (p ∷ ps) (c ∷ s) h = elim (Bool-cases (eqb p c)) [
  | inl is ↦
      let (rest, fits) = starts_with-take ps s (ground arith) in
      let same : c ≡ p = ground (arith, eqb_iff p c) in
      (ap₂ (λ x xs. x ∷ xs) same rest, omega arith)
  | inr other ↦ absurd (ground arith)
]

-- A text stands at a position of another one.
abbrev pub OccursAt : Text → Text → ℕ → Type 0
OccursAt pattern s i =
    (take (length pattern) (drop i s) ≡ pattern) × (i + length pattern ≤ length s)

abbrev Finds : Text → Text → Option ℕ → Type 0
Finds pattern s none = Unit
Finds pattern s (some i) = OccursAt pattern s i

find-Finds : (pattern s : Text) → Finds pattern s (find pattern s)
find-Finds [] [] = (refl, omega arith)
find-Finds (p ∷ pattern) [] = tt
find-Finds pattern (c ∷ s) = elim (Bool-cases (starts_with pattern (c ∷ s))) [
  | inl here ↦
      let (is, fits) = starts_with-take pattern (c ∷ s) here in rw here (is, omega (arith, fits))
  | inr later ↦ rw later (go (find pattern s) (find-Finds pattern s))
]
  where
    go :
        (o : Option ℕ)
        → Finds pattern s o
        → Finds pattern (c ∷ s) (elim o as (λ x. Option ℕ) [ none ↦ none | some i ↦ some (suc i) ])
    go none h = tt
    go (some i) (is, fits) = (is, omega arith)

-- A range at the place where the old text of an edit is found first, and after which it does not occur
-- again, with the new text.
pub record Replaces (base : Text) (edit : TextEdit) (r : Replacement ℕ) : Type 0 where
  pub not_empty : is_empty (unify_newlines edit.old_text) ≡ false
  pub occurs : OccursAt (unify_newlines edit.old_text) base r.start
  pub first : find (unify_newlines edit.old_text) base ≡ some r.start
  pub again : find (unify_newlines edit.old_text) (drop (r.start + r.count) base) ≡ none
  pub whole : r.count ≡ length (unify_newlines edit.old_text)
  pub with_new : r.new ≡ unify_newlines edit.new_text

abbrev EditKept : Text → TextEdit → ℕ → Attempt ℕ (EditRange × ℕ) → Type 0
EditKept base edit work (failed e i) = Unit
EditKept base edit work (done (r, spent)) =
    Replaces base edit r.range × (spent ≡ work + size base) × (spent ≤ max_match_work)

find_edit-EditKept :
    (base : Text) (edit : TextEdit) (i work : ℕ)
    → EditKept base edit work (find_edit base edit i work)
unfolding find_edit
find_edit-EditKept base edit i work =
    let old = unify_newlines edit.old_text in
    elim (Bool-cases (is_empty old)) [
      | inl empty ↦ rw empty tt
      | inr full ↦ elim (Bool-cases (ltb max_match_work (work + size base))) [
        | inl over ↦ rw (full, over) tt
        | inr fits ↦ elim (Option-cases (find old base)) [
          | inl missing ↦ rw (full, fits, missing) tt
          | inr (first, is) ↦ elim (Option-cases (find old (drop (first + length old) base))) [
            | inl once ↦
                rw (full, fits, is, once)
                  (
                    record {
                      not_empty = full;
                      occurs = subst (Finds old base) is (find-Finds old base);
                      first = is;
                      again = once;
                      whole = refl;
                      with_new = refl;
                    },
                    refl,
                    ground arith,
                  )
            | inr (second, twice) ↦ rw (full, fits, is, twice) tt
          ]
        ]
      ]
    ]

abbrev pub AllReplace : Text → List TextEdit → List (Replacement ℕ) → Type 0
AllReplace base [] [] = Unit
AllReplace base [] (r ∷ rs) = ⊥
AllReplace base (edit ∷ edits) [] = ⊥
AllReplace base (edit ∷ edits) (r ∷ rs) = Replaces base edit r × AllReplace base edits rs

abbrev EditsKept : Text → List TextEdit → ℕ → Attempt ℕ (List EditRange × ℕ) → Type 0
EditsKept base edits work (failed e i) = Unit
EditsKept base edits work (done (rs, spent)) =
    AllReplace base edits (ranges_of rs)
    × (spent ≡ work + length edits * size base)
    × (work ≤ max_match_work → spent ≤ max_match_work)

find_edits-EditsKept :
    (base : Text) (edits : List TextEdit) (i work : ℕ)
    → EditsKept base edits work (find_edits base edits i work)
unfolding find_edits
find_edits-EditsKept base [] i work = (tt, omega arith, λ h. h)
find_edits-EditsKept base (edit ∷ edits) i work =
    go (find_edit base edit i work) (find_edit-EditKept base edit i work)
      (λ spent. find_edits-EditsKept base edits (i + 1) spent)
  where
    more :
        (range : EditRange) (spent : ℕ) (q : Attempt ℕ (List EditRange × ℕ))
        → EditKept base edit work (done (range, spent))
        → EditsKept base edits spent q
        → EditsKept base (edit ∷ edits) work (q >>= λ (ranges, total). done (range ∷ ranges, total))
    more range spent (failed e j) here later = tt
    more range spent (done (rs, total)) (here, is, fits) (later, sum, kept) =
        ((here, later), ground arith, λ h. kept fits)

    go :
        (q : Attempt ℕ (EditRange × ℕ))
        → EditKept base edit work q
        → ((spent : ℕ) → EditsKept base edits spent (find_edits base edits (i + 1) spent))
        → EditsKept base (edit ∷ edits) work (
            q >>= λ (range, spent).
            find_edits base edits (i + 1) spent >>= λ (ranges, total). done (range ∷ ranges, total))
    go (failed e j) here later = tt
    go (done (range, spent)) here later =
        more range spent (find_edits base edits (i + 1) spent) here (later spent)

-- Every range ends within the text.
abbrev Within : ℕ → List EditRange → Type 0
Within n [] = Unit
Within n (r ∷ rs) = (r.range.start + r.range.count ≤ n) × Within n rs

replace-Within :
    (base : Text) (edits : List TextEdit) (rs : List EditRange)
    → AllReplace base edits (ranges_of rs)
    → Within (length base) rs
replace-Within base [] [] h = tt
replace-Within base [] (r ∷ rs) h = absurd h
replace-Within base (edit ∷ edits) [] h = absurd h
replace-Within base (edit ∷ edits) (r ∷ rs) (here, later) =
    (omega (arith, here.whole, here.occurs.1), replace-Within base edits rs later)

insert-Within :
    (n : ℕ) (r : EditRange) (rs : List EditRange)
    → r.range.start + r.range.count ≤ n
    → Within n rs
    → Within n (insert_by (λ s. s.range.start) r rs)
insert-Within n r [] h hs = (h, tt)
insert-Within n r (s ∷ rs) h (fits, hs) = elim (Bool-cases (ltb s.range.start r.range.start)) [
  | inl before ↦ rw before (fits, insert-Within n r rs h hs)
  | inr after ↦ rw after (h, (fits, hs))
]

sort-Within : (n : ℕ) (rs : List EditRange) → Within n rs → Within n (sort_edits rs)
sort-Within n [] h = tt
sort-Within n (r ∷ rs) (fits, h) = insert-Within n r (sort_edits rs) fits (sort-Within n rs h)

overlap-Ordered :
    (lo n : ℕ) (r : EditRange) (rs : List EditRange)
    → lo ≤ r.range.start
    → find_overlap (r ∷ rs) ≡ none
    → Within n (r ∷ rs)
    → Ordered lo n (ranges_of (r ∷ rs))
overlap-Ordered lo n r [] le h (fits, hs) = (le, fits)
overlap-Ordered lo n r (s ∷ rs) le h (fits, hs) =
    elim (Bool-cases (ltb s.range.start (r.range.start + r.range.count))) [
      | inl clash ↦ absurd (ground arith)
      | inr apart ↦ (
        le,
        overlap-Ordered (r.range.start + r.range.count) n s rs (ground arith) (ground arith) hs,
      )
    ]

no_overlap-Ordered :
    (n : ℕ) (rs : List EditRange)
    → find_overlap rs ≡ none
    → Within n rs
    → Ordered 0 n (ranges_of rs)
no_overlap-Ordered n [] h hs = omega arith
no_overlap-Ordered n (r ∷ rs) h hs = overlap-Ordered 0 n r rs (omega arith) h hs

-- Whether the text has a line feed and the first one follows a carriage return.
abbrev pub begins_with_returns : Text → Bool
begins_with_returns [] = false
begins_with_returns (c ∷ s) =
    let later = begins_with_returns s in
    if eqb c carriage_return && starts_newline s
    then true
    else if eqb c newline
    then false
    else later

-- Every line feed with a carriage return before it.
abbrev pub with_returns : Text → Text
with_returns [] = []
with_returns (c ∷ s) =
    let later = with_returns s in
    if eqb c newline then carriage_return ∷ newline ∷ later else c ∷ later

uses_returns_lem : (s : Text) → uses_returns s ≡ begins_with_returns s
uses_returns_lem [] = refl
uses_returns_lem (c ∷ s) =
    let later = uses_returns_lem s in
    elim (Option-cases (find (carriage_return ∷ newline ∷ []) s)) [
      | inl no_pair ↦ elim (Option-cases (find (newline ∷ []) s)) [
        | inl no_line ↦ ground (arith, later, no_pair, no_line)
        | inr (j, line) ↦ ground (arith, later, no_pair, line)
      ]
      | inr (i, pair) ↦ elim (Option-cases (find (newline ∷ []) s)) [
        | inl no_line ↦ ground (arith, later, pair, no_line)
        | inr (j, line) ↦ ground (arith, later, pair, line)
      ]
    ]

split_newlines_lem : (s : Text) → split_newlines s ≡ with_returns s
split_newlines_lem [] = refl
split_newlines_lem (c ∷ s) = elim (Bool-cases (eqb c newline)) [
  | inl is ↦ rw is (ap (λ t. carriage_return ∷ newline ∷ t) (split_newlines_lem s))
  | inr other ↦ rw other (ap (λ t. c ∷ t) (split_newlines_lem s))
]

-- The text as it is written: the mark, if the file has one, and the lines with the line ends by which
-- the first line of the file ends.
abbrev pub as_file : Text → Text → Text
as_file text plain =
    (if has_mark text then byte_order_mark ∷ [] else [])
    ++ (if begins_with_returns (without_mark text) then with_returns plain else plain)

restored_lem : (text plain : Text) → restored text plain ≡ as_file text plain
restored_lem text plain =
    rw (uses_returns_lem (without_mark text), split_newlines_lem plain)
      (mark (has_mark text)
        (if begins_with_returns (without_mark text) then with_returns plain else plain))
  where
    mark :
        (b : Bool) (body : Text)
        → (if b then byte_order_mark ∷ body else body)
          ≡ (if b then byte_order_mark ∷ [] else []) ++ body
    mark true body = refl
    mark false body = refl

-- A file with its texts replaced, where the answer is a success.
pub Replaced : Text → List TextEdit → ℕ → Attempt ℕ (Text × ℕ) → Type 0
Replaced text edits work (failed e i) = Unit
Replaced text edits work (done (result, spent)) =
    let base = unify_newlines (without_mark text) in
    (rs : List EditRange) × AllReplace base edits (ranges_of rs)
    × Ordered 0 (length base) (ranges_of (sort_edits rs))
    × (result ≡ as_file text (rebuilt 0 base (ranges_of (sort_edits rs))))
    × (same_text (rebuilt 0 base (ranges_of (sort_edits rs))) base ≡ false)
    × (spent ≡ work + length edits * size base)

Replaced-failed :
    (text : Text) (edits : List TextEdit) (work : ℕ) (e : Error) (i : ℕ)
    → Replaced text edits work (failed e i)
unfolding Replaced
Replaced-failed text edits work e i = tt

put_edits-Replaced :
    (text : Text) (edits : List TextEdit) (work : ℕ) (found : List EditRange) (spent : ℕ)
    → EditsKept (base_of text) edits work (done (found, spent))
    → Replaced text edits work (put_edits text (sort_edits found) spent)
unfolding put_edits Replaced
put_edits-Replaced text edits work found spent (here, sum, kept) =
    let base = base_of text in
    let ranges = ranges_of (sort_edits found) in
    elim (Option-cases (find_overlap (sort_edits found))) [
      | inr (edit, clash) ↦ rw (clash, put_edits) tt
      | inl apart ↦
          let ordered : Ordered 0 (length base) ranges =
            no_overlap-Ordered (length base) (sort_edits found) apart
              (sort-Within (length base) found (replace-Within base edits found here)) in
          let is : splice_all ranges base ≡ rebuilt 0 base ranges =
            splice_all-Rebuilds base ranges ordered in
          elim (Bool-cases (same_text (splice_all ranges base) base)) [
            | inl same ↦ rw (apart, same, put_edits) tt
            | inr changed ↦
                rw (apart, changed, put_edits)
                  (
                    found,
                    here,
                    ordered,
                    ap (restored text) is ∙ restored_lem text (rebuilt 0 base ranges),
                    ap (λ t. same_text t base) (sym is) ∙ changed,
                    sum,
                  )
          ]
    ]

-- A replacement that succeeds gives every edit the one range of the file, with its line ends unified,
-- where the edit's old text is found, and behind which it is not found again; the ranges, sorted, do
-- not overlap; the result is the file, read from the left, with the new text in the place of each
-- range, which is not the file as it was, behind the byte order mark, if the file has one, and with a
-- carriage return before every line feed if the first line feed of the file has one before it, and
-- before none otherwise; and the work grows by the size of the file for each edit.
pub apply_replacements-Replaces :
    (text : Text) (edits : List TextEdit) (work : ℕ)
    → Replaced text edits work (apply_replacements text edits work)
unfolding apply_replacements
apply_replacements-Replaces text edits work =
    go (find_edits (base_of text) edits 0 work) (find_edits-EditsKept (base_of text) edits 0 work)
  where
    go :
        (q : Attempt ℕ (List EditRange × ℕ))
        → EditsKept (base_of text) edits work q
        → Replaced text edits work (q >>= λ (found, spent). put_edits text (sort_edits found) spent)
    go (failed e i) h = Replaced-failed text edits work e i
    go (done (found, spent)) h = put_edits-Replaced text edits work found spent h
