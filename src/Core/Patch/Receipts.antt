-- ===== src/Core/Patch/Receipts.antt =====
-- packages/process-execution-core/src/filesystem/patch.rs: the receipt of a patch, with the changes
-- that were made and a bounded diff.
pub mod Diff
pub mod Status
use execution_provider.Prelude.{
  ℕ, zero, suc, String, ◌+◌, ◌-◌, ◌*◌, ◌/◌, ◌%◌, Bool, true, false, not, ◌||◌, Option, none, some,
  List, [], ◌∷◌, ◌++◌, eqb, ltb, length, is_empty, is_some, drop, slice, sum_by, reverse, take,
  unwrap_or, if◌then◌else◌,
}
use execution_provider.Prelude.Text.{Text, codes, newline, same_text, size, lines}
use execution_provider.Core.Errors.{Error, ErrorCode}
use execution_provider.Core.Types.{Bytes}
use execution_provider.Core.Files.{FilePath, Os}
use execution_provider.Core.Patch.{max_patch_diff_bytes}

pub data PatchStatus : Type 0 where
  applied rejected partial : PatchStatus

pub data PatchChangeKind : Type 0 where
  add update delete move : PatchChangeKind

pub record PatchChange : Type 0 where
  pub kind : PatchChangeKind
  pub path : FilePath
  pub destination_path : Option FilePath
  pub before_sha256 : Option Text
  pub after_sha256 : Option Text
  pub destination_before_sha256 : Option Text
  pub bytes_before : Option ℕ
  pub bytes_after : Option ℕ
  pub destination_bytes_before : Option ℕ
  pub first_changed_line : Option ℕ

pub record PatchFailure : Type 0 where
  pub code : ErrorCode
  pub message : String
  pub section : Option ℕ
  pub edit : Option ℕ

pub record PatchReceipt : Type 0 where
  pub mutation_id : Text
  pub status : PatchStatus
  pub changes_exact : Bool
  pub changes : List PatchChange
  pub diff : Text
  pub diff_truncated : Bool
  pub error : Option PatchFailure

-- `PatchReceipt::new`
unfoldable pub new_receipt : Text → PatchReceipt
new_receipt id = record {
  mutation_id = id;
  status = PatchStatus.applied;
  changes_exact = true;
  changes = [];
  diff = [];
  diff_truncated = false;
  error = none;
}

-- `PatchReceipt::fail`
unfoldable pub fail : Error → Option ℕ → Option ℕ → Bool → PatchReceipt → PatchReceipt
fail e section edit uncertain r = record r {
  status =
      if uncertain || not (is_empty r.changes) then PatchStatus.partial else PatchStatus.rejected;
  changes_exact = not uncertain;
  error = some (record { code = e.code; message = e.message; section = section; edit = edit });
}

-- A planned section. The source's field `section` is the section's index.
pub record Step : Type 0 where
  pub kind : PatchChangeKind
  pub path : FilePath
  pub destination : Option FilePath
  pub before : Option Bytes
  pub after : Option Bytes
  pub destination_before : Option Bytes
  pub section : ℕ

abbrev pub map_option : {A B : Type 0} → (A → B) → Option A → Option B
map_option f none = none
map_option f (some a) = some (f a)

-- `zip(..).take_while(equal).count()`
abbrev pub common_prefix : {A : Type 0} → (A → A → Bool) → List A → List A → ℕ
common_prefix same [] ys = 0
common_prefix same (x ∷ xs) [] = 0
common_prefix same (x ∷ xs) (y ∷ ys) =
    let rest = common_prefix same xs ys in if same x y then suc rest else 0

abbrev pub first_changed : Option Bytes → Option Bytes → Option ℕ
first_changed none after = some 1
first_changed (some a) none = some 1
first_changed (some a) (some b) =
    some (1 + sum_by (λ c. if eqb c newline then 1 else 0) (take (common_prefix eqb a b) b))

-- `append_bounded`, with whether it had room.
unfoldable pub append_bounded : PatchReceipt → Text → PatchReceipt × Bool
append_bounded r fragment =
    if ltb max_patch_diff_bytes (size r.diff + size fragment)
    then (record r { diff_truncated = true }, false)
    else (record r { diff = r.diff ++ fragment }, true)

-- `append_line`
unfoldable pub append_line : PatchReceipt → ℕ → Text → PatchReceipt × Bool
append_line r marker line =
    if ltb max_patch_diff_bytes (size r.diff + size line + 2)
    then (record r { diff_truncated = true }, false)
    else (record r { diff = r.diff ++ marker ∷ (line ++ newline ∷ []) }, true)

-- The loop over lines, until one has no room.
unfoldable pub append_lines : PatchReceipt → ℕ → List Text → PatchReceipt × Bool
unfolding append_line
append_lines r marker [] = (r, true)
append_lines r marker (line ∷ rest) =
    let next = append_line r marker line in
    let all_lines = append_lines next.0 marker rest in if next.1 then all_lines else next

abbrev pub digits : ℕ → ℕ → Text
digits zero n = []
digits (suc fuel) n =
    let rest = digits fuel (n / 10) in
    if ltb n 10 then (48 + n) ∷ [] else rest ++ (48 + n % 10) ∷ []

-- A number in a format string.
abbrev pub decimal : ℕ → Text
decimal n = digits (suc n) n

abbrev pub diff_header : Step → ℕ → ℕ → ℕ → Text
diff_header step prefix removed added =
    codes "--- a/"
    ++ step.path
    ++ codes "\n+++ b/"
    ++ unwrap_or step.destination step.path
    ++ codes "\n@@ -"
    ++ decimal (prefix + 1)
    ++ codes ","
    ++ decimal removed
    ++ codes " +"
    ++ decimal (prefix + 1)
    ++ codes ","
    ++ decimal added
    ++ codes " @@\n"

-- A header, the removed lines and the added ones, until one has no room.
unfoldable pub append_changes : PatchReceipt → Text → List Text → List Text → PatchReceipt
unfolding append_bounded append_lines
append_changes r header old new =
    let headed = append_bounded r header in
    let removed = append_lines headed.0 45 old in
    let added = append_lines removed.0 43 new in
    if headed.1 then (if removed.1 then added.0 else removed.0) else headed.0

-- The hunk between the common lines at both ends.
unfoldable pub append_hunk : PatchReceipt → Step → List Text → List Text → PatchReceipt
unfolding append_changes
append_hunk r step old new =
    let prefix = common_prefix same_text old new in
    let suffix = common_prefix same_text (reverse (drop prefix old)) (reverse (drop prefix new)) in
    append_changes r
      (diff_header step prefix (length old - prefix - suffix) (length new - prefix - suffix))
      (slice prefix (length old - suffix) old) (slice prefix (length new - suffix) new)

module _ {Disk : Type 0} (os : Os Disk) where
  unfoldable pub change :
      PatchChangeKind
      → FilePath
      → Option FilePath
      → Option Bytes
      → Option Bytes
      → Option Bytes
      → PatchChange
  change kind path destination before after destination_before = record {
    kind = kind;
    path = path;
    destination_path = destination;
    before_sha256 = map_option os.sha256 before;
    after_sha256 = map_option os.sha256 after;
    destination_before_sha256 = map_option os.sha256 destination_before;
    bytes_before = map_option length before;
    bytes_after = map_option length after;
    destination_bytes_before = map_option length destination_before;
    first_changed_line = first_changed before after;
  }

  -- The two texts of a hunk, if both are UTF-8.
  abbrev pub append_texts : PatchReceipt → Step → Option Text → Option Text → PatchReceipt
  append_texts r step (some old) (some new) = append_hunk r step (lines old) (lines new)
  append_texts r step (some old) none = record r { diff_truncated = true }
  append_texts r step none new = record r { diff_truncated = true }

  unfoldable pub append_diff : PatchReceipt → Step → PatchReceipt
  unfolding append_hunk
  append_diff r step =
      let before = unwrap_or step.before [] in
      let after = unwrap_or step.after [] in
      if r.diff_truncated
      then r
      else if ltb (256 * 1024) (length before + length after)
      then record r { diff_truncated = true }
      else append_texts r step (os.from_utf8 before) (os.from_utf8 after)
