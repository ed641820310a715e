-- ===== src/Core/Patch/Receipts/Status.antt =====
-- Adding to the diff leaves the status of a receipt alone.
use execution_provider.Prelude.{
  ℕ, ◌+◌, ◌-◌, ◌*◌, ◌≡◌, refl, ◌∙◌, Bool, true, false, Option, none, some, List, [], ◌∷◌, length,
  drop, slice, reverse, ltb, Bool-cases, inl, inr, if◌then◌else◌, unwrap_or,
}
use execution_provider.Prelude.Text.{Text, same_text, size, lines}
use execution_provider.Core.Files.{Os}
use execution_provider.Core.Patch.{max_patch_diff_bytes}
use execution_provider.Core.Patch.Receipts.{
  PatchReceipt, PatchStatus, Step, append_bounded, append_line, append_lines, append_changes,
  append_hunk, append_texts, append_diff, common_prefix, diff_header,
}

abbrev HasStatus : PatchStatus → PatchReceipt → Type 0
HasStatus status r = r.status ≡ status

if-HasStatus :
    (status : PatchStatus) (b : Bool) (r s : PatchReceipt)
    → HasStatus status r
    → HasStatus status s
    → HasStatus status (if b then r else s)
if-HasStatus status true r s h k = h
if-HasStatus status false r s h k = k

append_bounded-status :
    (r : PatchReceipt) (fragment : Text) → (append_bounded r fragment).0.status ≡ r.status
unfolding append_bounded
append_bounded-status r fragment =
    elim (Bool-cases (ltb max_patch_diff_bytes (size r.diff + size fragment))) [
      | inl full ↦ rw full refl
      | inr room ↦ rw room refl
    ]

append_line-status :
    (r : PatchReceipt) (marker : ℕ) (line : Text) → (append_line r marker line).0.status ≡ r.status
unfolding append_line
append_line-status r marker line =
    elim (Bool-cases (ltb max_patch_diff_bytes (size r.diff + size line + 2))) [
      | inl full ↦ rw full refl
      | inr room ↦ rw room refl
    ]

append_lines-status :
    (r : PatchReceipt) (marker : ℕ) (ls : List Text)
    → (append_lines r marker ls).0.status ≡ r.status
unfolding append_lines
append_lines-status r marker [] = refl
append_lines-status r marker (line ∷ rest) =
    let next = append_line-status r marker line in
    elim (Bool-cases (append_line r marker line).1) [
      | inl room ↦ rw room (append_lines-status (append_line r marker line).0 marker rest ∙ next)
      | inr full ↦ rw full next
    ]

append_changes-status :
    (r : PatchReceipt) (header : Text) (old new : List Text)
    → (append_changes r header old new).status ≡ r.status
unfolding append_changes
append_changes-status r header old new =
    let headed = append_bounded r header in
    let removed = append_lines headed.0 45 old in
    let added = append_lines removed.0 43 new in
    let first = append_bounded-status r header in
    let second = append_lines-status headed.0 45 old ∙ first in
    if-HasStatus r.status headed.1 (if removed.1 then added.0 else removed.0) headed.0
      (if-HasStatus r.status removed.1 added.0 removed.0
        (append_lines-status removed.0 43 new ∙ second) second)
      first

append_texts-status :
    {Disk : Type 0} (os : Os Disk) (r : PatchReceipt) (step : Step) (old new : Option Text)
    → (append_texts os r step old new).status ≡ r.status
unfolding append_hunk
append_texts-status os r step (some a) (some b) =
    let old = lines a in
    let new = lines b in
    let prefix = common_prefix same_text old new in
    let suffix = common_prefix same_text (reverse (drop prefix old)) (reverse (drop prefix new)) in
    append_changes-status r
      (diff_header step prefix (length old - prefix - suffix) (length new - prefix - suffix))
      (slice prefix (length old - suffix) old) (slice prefix (length new - suffix) new)
append_texts-status os r step (some old) none = refl
append_texts-status os r step none new = refl

pub append_diff-status :
    {Disk : Type 0} (os : Os Disk) (r : PatchReceipt) (step : Step)
    → (append_diff os r step).status ≡ r.status
unfolding append_diff
append_diff-status os r step =
    let before = unwrap_or step.before [] in
    let after = unwrap_or step.after [] in
    let cut = record r { diff_truncated = true } in
    let texts = append_texts os r step (os.from_utf8 before) (os.from_utf8 after) in
    if-HasStatus r.status r.diff_truncated r
      (if ltb (256 * 1024) (length before + length after) then cut else texts) refl
      (if-HasStatus r.status (ltb (256 * 1024) (length before + length after)) cut texts refl
        (append_texts-status os r step (os.from_utf8 before) (os.from_utf8 after)))
