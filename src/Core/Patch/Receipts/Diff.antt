-- ===== src/Core/Patch/Receipts/Diff.antt =====
-- What a step adds to the diff of a receipt, within its bound.
use execution_provider.Prelude.{
  ℕ, ◌+◌, ◌≤◌, ◌<◌, Bool, true, false, Option, none, some, List, [], ◌∷◌, ◌++◌, ◌-◌, ◌*◌, drop,
  slice, reverse, length, ltb, arith, map, flat_map, flat_map-append, append-nil, append_assoc, ◌≡◌,
  refl, sym, ap, subst, ◌∙◌, ◌⊎◌, Bool-cases, inl, inr, if◌then◌else◌, sum_by-append, unwrap_or,
}
use execution_provider.Prelude.Text.{Text, newline, size, width, lines, same_text}
use execution_provider.Core.Files.{Os}
use execution_provider.Core.Patch.{max_patch_diff_bytes}
use execution_provider.Core.Patch.Receipts.{
  PatchReceipt, Step, append_bounded, append_line, append_lines, append_changes, append_hunk,
  common_prefix, diff_header, append_texts, append_diff,
}

abbrev pub IsBounded : PatchReceipt → Type 0
IsBounded r = size r.diff ≤ max_patch_diff_bytes

append_bounded-IsBounded :
    (r : PatchReceipt) (fragment : Text) → IsBounded r → IsBounded (append_bounded r fragment).0
unfolding append_bounded
append_bounded-IsBounded r fragment h =
    elim (Bool-cases (ltb max_patch_diff_bytes (size r.diff + size fragment))) [
      | inl full ↦ rw full h
      | inr room ↦ rw room (ground (arith, sum_by-append width r.diff fragment))
    ]

append_line-IsBounded :
    (r : PatchReceipt) (marker : ℕ) (line : Text)
    → marker < 128
    → IsBounded r
    → IsBounded (append_line r marker line).0
unfolding append_line
append_line-IsBounded r marker line ascii h =
    elim (Bool-cases (ltb max_patch_diff_bytes (size r.diff + size line + 2))) [
      | inl full ↦ rw full h
      | inr room ↦ rw room (
          ground (
            arith,
            sum_by-append width r.diff (marker ∷ (line ++ newline ∷ [])),
            sum_by-append width line (newline ∷ []),
          ))
    ]

append_lines-IsBounded :
    (r : PatchReceipt) (marker : ℕ) (ls : List Text)
    → marker < 128
    → IsBounded r
    → IsBounded (append_lines r marker ls).0
unfolding append_lines
append_lines-IsBounded r marker [] ascii h = h
append_lines-IsBounded r marker (line ∷ rest) ascii h =
    let next = append_line-IsBounded r marker line ascii h in
    elim (Bool-cases (append_line r marker line).1) [
      | inl room ↦
          rw room (append_lines-IsBounded (append_line r marker line).0 marker rest ascii next)
      | inr full ↦ rw full next
    ]

if-IsBounded :
    (b : Bool) (r s : PatchReceipt) → IsBounded r → IsBounded s → IsBounded (if b then r else s)
if-IsBounded true r s h k = h
if-IsBounded false r s h k = k

append_changes-IsBounded :
    (r : PatchReceipt) (header : Text) (old new : List Text)
    → IsBounded r
    → IsBounded (append_changes r header old new)
unfolding append_changes
append_changes-IsBounded r header old new h =
    let headed = append_bounded r header in
    let removed = append_lines headed.0 45 old in
    let added = append_lines removed.0 43 new in
    let headed_fits = append_bounded-IsBounded r header h in
    let removed_fits = append_lines-IsBounded headed.0 45 old (omega arith) headed_fits in
    let added_fits = append_lines-IsBounded removed.0 43 new (omega arith) removed_fits in
    if-IsBounded headed.1 (if removed.1 then added.0 else removed.0) headed.0
      (if-IsBounded removed.1 added.0 removed.0 added_fits removed_fits) headed_fits

append_hunk-IsBounded :
    (r : PatchReceipt) (step : Step) (old new : List Text)
    → IsBounded r
    → IsBounded (append_hunk r step old new)
unfolding append_hunk
append_hunk-IsBounded r step old new h =
    let prefix = common_prefix same_text old new in
    let suffix = common_prefix same_text (reverse (drop prefix old)) (reverse (drop prefix new)) in
    append_changes-IsBounded r
      (diff_header step prefix (length old - prefix - suffix) (length new - prefix - suffix))
      (slice prefix (length old - suffix) old) (slice prefix (length new - suffix) new) h

append_texts-IsBounded :
    {Disk : Type 0} (os : Os Disk) (r : PatchReceipt) (step : Step) (old new : Option Text)
    → IsBounded r
    → IsBounded (append_texts os r step old new)
append_texts-IsBounded os r step (some old) (some new) h =
    append_hunk-IsBounded r step (lines old) (lines new) h
append_texts-IsBounded os r step (some old) none h = h
append_texts-IsBounded os r step none new h = h

append_diff_fits :
    {Disk : Type 0} (os : Os Disk) (r : PatchReceipt) (step : Step)
    → IsBounded r
    → IsBounded (append_diff os r step)
unfolding append_diff
append_diff_fits os r step h =
    let before = unwrap_or step.before [] in
    let after = unwrap_or step.after [] in
    let cut = record r { diff_truncated = true } in
    let texts = append_texts os r step (os.from_utf8 before) (os.from_utf8 after) in
    if-IsBounded r.diff_truncated r
      (if ltb (256 * 1024) (length before + length after) then cut else texts) h
      (if-IsBounded (ltb (256 * 1024) (length before + length after)) cut texts h
        (append_texts-IsBounded os r step (os.from_utf8 before) (os.from_utf8 after) h))

abbrev pub joined : List Text → Text
joined fragments = flat_map (λ fragment. fragment) fragments

-- A line of a diff with its marker.
abbrev pub marked : ℕ → Text → Text
marked marker line = marker ∷ (line ++ newline ∷ [])

-- The diff has grown by the first of the fragments, each of them whole; by all of them, or it is
-- marked as truncated.
abbrev pub Grows : PatchReceipt → List Text → PatchReceipt → Type 0
Grows r fragments s =
    (shown rest : List Text) × (fragments ≡ shown ++ rest)
    × (s.diff ≡ r.diff ++ joined shown)
    × ((rest ≡ []) ⊎ (s.diff_truncated ≡ true))

-- The same of a receipt with whether there was room for all.
abbrev Adds : PatchReceipt → List Text → PatchReceipt × Bool → Type 0
Adds r fragments q =
    ((q.1 ≡ true) × (q.0.diff ≡ r.diff ++ joined fragments))
    ⊎ ((q.1 ≡ false)
        × (q.0.diff_truncated ≡ true)
        × ((shown rest : List Text) × (fragments ≡ shown ++ rest)
            × (q.0.diff ≡ r.diff ++ joined shown)))

Adds-Grows :
    (r : PatchReceipt) (fragments : List Text) (q : PatchReceipt × Bool)
    → Adds r fragments q
    → Grows r fragments q.0
Adds-Grows r fragments q (inl (room, is)) =
    (fragments, [], sym (append-nil fragments), is, inl refl)
Adds-Grows r fragments q (inr (full, cut, (shown, rest, are, is))) = (shown, rest, are, is, inr cut)

Adds-then :
    (r : PatchReceipt) (xs ys : List Text) (q p : PatchReceipt × Bool)
    → Adds r xs q
    → Adds q.0 ys p
    → Adds r (xs ++ ys) (if q.1 then p else q)
Adds-then r xs ys q p (inl (room, is)) (inl (room', is')) = simp room (
    inl (
      room',
      is'
          ∙ ap (λ d. d ++ joined ys) is
          ∙ append_assoc r.diff (joined xs) (joined ys)
          ∙ ap (λ d. r.diff ++ d) (sym (flat_map-append (λ f. f) xs ys)),
    ))
Adds-then r xs ys q p (inl (room, is)) (inr (full, cut, (shown, rest, are, is'))) = simp room (
    inr (
      full,
      cut,
      (
        xs ++ shown,
        rest,
        ap (λ l. xs ++ l) are ∙ sym (append_assoc xs shown rest),
        is'
            ∙ ap (λ d. d ++ joined shown) is
            ∙ append_assoc r.diff (joined xs) (joined shown)
            ∙ ap (λ d. r.diff ++ d) (sym (flat_map-append (λ f. f) xs shown)),
      ),
    ))
Adds-then r xs ys q p (inr (full, cut, (shown, rest, are, is))) later =
    simp full
      (inr (refl, cut, (shown, rest ++ ys, ap (λ l. l ++ ys) are ∙ append_assoc shown rest ys, is)))

append_bounded-Adds :
    (r : PatchReceipt) (fragment : Text) → Adds r (fragment ∷ []) (append_bounded r fragment)
unfolding append_bounded
append_bounded-Adds r fragment =
    elim (Bool-cases (ltb max_patch_diff_bytes (size r.diff + size fragment))) [
      | inl full ↦ rw full (inr (refl, refl, ([], fragment ∷ [], refl, sym (append-nil r.diff))))
      | inr room ↦ rw room (inl (refl, ap (λ d. r.diff ++ d) (sym (append-nil fragment))))
    ]

append_line-Adds :
    (r : PatchReceipt) (marker : ℕ) (line : Text)
    → Adds r (marked marker line ∷ []) (append_line r marker line)
unfolding append_line
append_line-Adds r marker line =
    elim (Bool-cases (ltb max_patch_diff_bytes (size r.diff + size line + 2))) [
      | inl full ↦
          rw full (inr (refl, refl, ([], marked marker line ∷ [], refl, sym (append-nil r.diff))))
      | inr room ↦
          rw room (inl (refl, ap (λ d. r.diff ++ d) (sym (append-nil (marked marker line)))))
    ]

append_lines-Adds :
    (r : PatchReceipt) (marker : ℕ) (ls : List Text)
    → Adds r (map (marked marker) ls) (append_lines r marker ls)
unfolding append_lines
append_lines-Adds r marker [] = inl (refl, sym (append-nil r.diff))
append_lines-Adds r marker (line ∷ rest) =
    let next = append_line r marker line in
    Adds-then r (marked marker line ∷ []) (map (marked marker) rest) next
      (append_lines next.0 marker rest) (append_line-Adds r marker line)
      (append_lines-Adds next.0 marker rest)

-- The fragments of a hunk: its header, the old lines between the common ends, and the new ones.
abbrev pub hunk_fragments : Step → List Text → List Text → List Text
hunk_fragments step old new =
    let prefix = common_prefix same_text old new in
    let suffix = common_prefix same_text (reverse (drop prefix old)) (reverse (drop prefix new)) in
    (diff_header step prefix (length old - prefix - suffix) (length new - prefix - suffix) ∷ [])
    ++ map (marked 45) (slice prefix (length old - suffix) old)
    ++ map (marked 43) (slice prefix (length new - suffix) new)

if-first :
    (b : Bool) (p q : PatchReceipt × Bool) → (if b then p.0 else q.0) ≡ (if b then p else q).0
if-first true p q = refl
if-first false p q = refl

append_changes-Grows :
    (r : PatchReceipt) (header : Text) (old new : List Text)
    → Grows r
        ((header ∷ []) ++ map (marked 45) old ++ map (marked 43) new)
        (append_changes r header old new)
unfolding append_changes
append_changes-Grows r header old new =
    let headed = append_bounded r header in
    let removed = append_lines headed.0 45 old in
    let added = append_lines removed.0 43 new in
    let fragments = (header ∷ []) ++ map (marked 45) old ++ map (marked 43) new in
    let both = if removed.1 then added else removed in
    let grown : Grows r fragments (if headed.1 then both else headed).0 =
      Adds-Grows r fragments (if headed.1 then both else headed) (
        Adds-then r (header ∷ []) (map (marked 45) old ++ map (marked 43) new) headed both
          (append_bounded-Adds r header)
          (Adds-then headed.0 (map (marked 45) old) (map (marked 43) new) removed added
            (append_lines-Adds headed.0 45 old) (append_lines-Adds removed.0 43 new))) in
    subst (Grows r fragments)
      (sym (
        ap (λ s. if headed.1 then s else headed.0) (if-first removed.1 added removed)
        ∙ if-first headed.1 both headed))
      grown

-- What a step adds to the diff: nothing, and the diff is marked as truncated, or the fragments of the
-- hunk between its two texts.
abbrev pub Shows : {Disk : Type 0} → Os Disk → PatchReceipt → Step → PatchReceipt → Type 0
Shows os r step s =
    ((s.diff ≡ r.diff) × (s.diff_truncated ≡ true))
    ⊎ ((old new : Text) × (os.from_utf8 (unwrap_or step.before []) ≡ some old)
        × (os.from_utf8 (unwrap_or step.after []) ≡ some new)
        × Grows r (hunk_fragments step (lines old) (lines new)) s)

append_texts-Shows :
    {Disk : Type 0} (os : Os Disk) (r : PatchReceipt) (step : Step) (old new : Option Text)
    → os.from_utf8 (unwrap_or step.before []) ≡ old
    → os.from_utf8 (unwrap_or step.after []) ≡ new
    → Shows os r step (append_texts os r step old new)
unfolding append_hunk
append_texts-Shows os r step (some old) (some new) is is' =
    let xs = lines old in
    let ys = lines new in
    let prefix = common_prefix same_text xs ys in
    let suffix = common_prefix same_text (reverse (drop prefix xs)) (reverse (drop prefix ys)) in
    inr (
      old,
      new,
      is,
      is',
      append_changes-Grows r
          (diff_header step prefix (length xs - prefix - suffix) (length ys - prefix - suffix))
          (slice prefix (length xs - suffix) xs) (slice prefix (length ys - suffix) ys),
    )
append_texts-Shows os r step (some old) none is is' = inl (refl, refl)
append_texts-Shows os r step none new is is' = inl (refl, refl)

-- The diff of a receipt stays within 64 KiB when a step's hunk is added, whatever the step: the header
-- and each line are added whole, first the header, then the old lines and then the new ones, and all of
-- them, or the diff is marked as truncated.
pub append_diff-IsBounded :
    {Disk : Type 0} (os : Os Disk) (r : PatchReceipt) (step : Step)
    → IsBounded r
    → IsBounded (append_diff os r step) × Shows os r step (append_diff os r step)
unfolding append_diff
append_diff-IsBounded os r step h =
    let before = unwrap_or step.before [] in
    let after = unwrap_or step.after [] in
    (
      append_diff_fits os r step h,
      elim (Bool-cases r.diff_truncated) [
        | inl cut ↦ simp cut (inl (refl, refl))
        | inr going ↦ elim (Bool-cases (ltb (256 * 1024) (length before + length after))) [
          | inl large ↦ simp (going, large) (inl (refl, refl))
          | inr small ↦
              simp (going, small)
                (append_texts-Shows os r step (os.from_utf8 before) (os.from_utf8 after) refl refl)
        ]
      ],
    )
