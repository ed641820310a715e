-- ===== src/Core/Patch/Hunks/Placement.antt =====
-- Where the hunks of an updated file are put.
use execution_provider.Prelude.{
  ℕ, ◌+◌, ◌≤◌, ◌<◌, ◌≡◌, refl, ◌⊎◌, inl, inr, Bool, true, false, Option, none, some, List, [], ◌∷◌,
  length, ltb, arith, Bool-cases, if◌then◌else◌, is_empty,
}
use execution_provider.Prelude.Text.{Text, init}
use execution_provider.Core.Errors.{Result, ok, err, ◌>>=◌, ◌>>◌, ok_or, fail_if, invalid}
use execution_provider.Core.Patch.{Chunk, max_match_work}
use execution_provider.Core.Patch.Seek.{seek}
use execution_provider.Core.Patch.Seek.Meaning
use execution_provider.Core.Patch.Seek.Meaning.{FoundAt, Finds, seek-Answers}
use execution_provider.Core.Patch.Splice.{Replacement}
use execution_provider.Core.Patch.Hunks.{
  ends_empty, without_sentinel, anchored, Located, located, find_hunk, Placed, out_of_order,
  place_at, place_end, place,
}

-- A range of lines that the old lines match, in one of the four ways to compare, and what replaces it.
pub record Stands (lines old new : List Text) (r : Replacement Text) : Type 0 where
  pub pass : ℕ
  pub is_pass : pass < 4
  pub stands : Meaning.Stands pass lines old r.start
  pub whole : r.count ≡ length old
  pub with_new : r.new ≡ new

-- Where a hunk may be put: at the end, if it has no old lines; else where its old lines stand, or where
-- they stand without an empty line behind them.
abbrev pub PlacedBy : List Text → Chunk → Replacement Text → Type 0
PlacedBy lines chunk r =
    ((is_empty chunk.old ≡ true)
      × (r ≡ record { start = length lines; count = 0; new = chunk.new }))
    ⊎ (Stands lines chunk.old chunk.new r
        ⊎ ((ends_empty chunk.old ≡ true)
            × Stands lines (init chunk.old) (without_sentinel chunk.new) r))

abbrev pub AllPlaced : List Text → List Chunk → List (Replacement Text) → Type 0
AllPlaced lines [] [] = Unit
AllPlaced lines [] (r ∷ rs) = ⊥
AllPlaced lines (chunk ∷ chunks) [] = ⊥
AllPlaced lines (chunk ∷ chunks) (r ∷ rs) = PlacedBy lines chunk r × AllPlaced lines chunks rs

-- Some pass finds the lines at a position.
abbrev StandsAt : List Text → List Text → ℕ → Type 0
StandsAt lines pattern i = (pass : ℕ) × (pass < 4) × Meaning.Stands pass lines pattern i

found-StandsAt :
    (lines pattern : List Text) (start : ℕ) (eof : Bool) (i : ℕ)
    → FoundAt lines pattern start eof i
    → StandsAt lines pattern i
found-StandsAt lines pattern start eof i (inl f) = (0, omega arith, f.1)
found-StandsAt lines pattern start eof i (inr (inl (m, f))) = (1, omega arith, f.1)
found-StandsAt lines pattern start eof i (inr (inr (inl (m, n, f)))) = (2, omega arith, f.1)
found-StandsAt lines pattern start eof i (inr (inr (inr (m, n, o, f)))) = (3, omega arith, f.1)

seek_long :
    (lines pattern : List Text) (start : ℕ) (eof : Bool) (work : ℕ)
    → length lines < length pattern
    → seek lines pattern start eof work ≡ ok (none, work)
unfolding seek
seek_long lines pattern start eof work h = ground arith

-- What the hunks need of a search.
abbrev pub Kept : List Text → List Text → ℕ → Result (Option ℕ × ℕ) → Type 0
Kept lines pattern work (ok (none, spent)) = work ≤ max_match_work → spent ≤ max_match_work
Kept lines pattern work (ok (some i, spent)) =
    StandsAt lines pattern i × (work ≤ max_match_work → spent ≤ max_match_work)
Kept lines pattern work (err e) = Unit

Finds-Kept :
    (lines pattern : List Text) (start : ℕ) (eof : Bool) (work : ℕ) (r : Result (Option ℕ × ℕ))
    → Finds lines pattern start eof work r
    → Kept lines pattern work r
Finds-Kept lines pattern start eof work (ok (none, spent)) (missed, is, kept) = kept
Finds-Kept lines pattern start eof work (ok (some i, spent)) (found, more, fits) =
    (found-StandsAt lines pattern start eof i found, λ h. fits)
Finds-Kept lines pattern start eof work (err e) h = tt

pub seek-Kept :
    (lines pattern : List Text) (start : ℕ) (eof : Bool) (work : ℕ)
    → Kept lines pattern work (seek lines pattern start eof work)
seek-Kept lines pattern start eof work = elim (Bool-cases (ltb (length lines) (length pattern))) [
  | inl long ↦ rw (seek_long lines pattern start eof work (ground arith)) (λ h. h)
  | inr fits ↦
      Finds-Kept lines pattern start eof work (seek lines pattern start eof work)
        (seek-Answers lines pattern start eof work (ground arith))
]

-- What is kept of a located hunk: where it stands, and the bound of the work.
abbrev HunkKept : List Text → Chunk → ℕ → Result (Option Located × ℕ) → Type 0
HunkKept lines chunk work (ok (none, spent)) = work ≤ max_match_work → spent ≤ max_match_work
HunkKept lines chunk work (ok (some at, spent)) =
    (Stands lines chunk.old chunk.new (place_at at spent).range
      ⊎ ((ends_empty chunk.old ≡ true)
          × Stands lines (init chunk.old) (without_sentinel chunk.new) (place_at at spent).range))
    × (work ≤ max_match_work → spent ≤ max_match_work)
HunkKept lines chunk work (err e) = Unit

found-Stands :
    (lines old new : List Text) (i spent : ℕ)
    → StandsAt lines old i
    → Stands lines old new (place_at (record { index = i; old = old; new = new }) spent).range
found-Stands lines old new i spent (pass, is_pass, stands) = record {
  pass = pass;
  is_pass = is_pass;
  stands = stands;
  whole = refl;
  with_new = refl;
}

second_try :
    (lines : List Text) (chunk : Chunk) (work spent : ℕ) (r : Result (Option ℕ × ℕ))
    → ends_empty chunk.old ≡ true
    → (work ≤ max_match_work → spent ≤ max_match_work)
    → Kept lines (init chunk.old) spent r
    → HunkKept lines chunk work (
        r >>= λ (again, more).
        ok (located (init chunk.old) (without_sentinel chunk.new) again, more))
second_try lines chunk work spent (err e) empty kept h = tt
second_try lines chunk work spent (ok (none, more)) empty kept h = λ w. h (kept w)
second_try lines chunk work spent (ok (some i, more)) empty kept (stands, h) = (
  inr (empty, found-Stands lines (init chunk.old) (without_sentinel chunk.new) i more stands),
  λ w. h (kept w),
)

find_hunk-HunkKept :
    (lines : List Text) (chunk : Chunk) (cursor work : ℕ)
    → HunkKept lines chunk work (find_hunk lines chunk cursor work)
unfolding find_hunk
find_hunk-HunkKept lines chunk cursor work =
    go (seek lines chunk.old cursor chunk.eof work)
      (seek-Kept lines chunk.old cursor chunk.eof work)
  where
    go :
        (r : Result (Option ℕ × ℕ))
        → Kept lines chunk.old work r
        → HunkKept lines chunk work (
            r >>= λ (found, spent). elim found [
              | some index ↦ ok (located chunk.old chunk.new (some index), spent)
              | none ↦
                  if ends_empty chunk.old
                  then (seek lines (init chunk.old) cursor chunk.eof spent >>= λ (again, more).
                      ok (located (init chunk.old) (without_sentinel chunk.new) again, more))
                  else ok (none, spent)
            ])
    go (err e) h = tt
    go (ok (some i, spent)) (stands, kept) =
        (inl (found-Stands lines chunk.old chunk.new i spent stands), kept)
    go (ok (none, spent)) kept = elim (Bool-cases (ends_empty chunk.old)) [
      | inl empty ↦ rw empty (
          second_try lines chunk work spent (seek lines (init chunk.old) cursor chunk.eof spent)
            empty kept (seek-Kept lines (init chunk.old) cursor chunk.eof spent))
      | inr full ↦ rw full kept
    ]

-- The range of one hunk against those before it: an insertion at the end, or a range behind them.
abbrev pub Advances : List Text → ℕ → Placed → Type 0
Advances lines last_end p =
    ((p.range.start ≡ length lines) × (p.range.count ≡ 0) × (p.last_end ≡ last_end))
    ⊎ ((last_end ≤ p.range.start)
        × (p.last_end ≡ p.range.start + p.range.count)
        × (p.last_end ≤ length lines))

abbrev pub PlaceKept : List Text → Chunk → ℕ → ℕ → Result Placed → Type 0
PlaceKept lines chunk last_end work (ok p) =
    PlacedBy lines chunk p.range
    × Advances lines last_end p
    × (work ≤ max_match_work → p.work ≤ max_match_work)
PlaceKept lines chunk last_end work (err e) = Unit

hunk-PlaceKept :
    (lines : List Text) (chunk : Chunk) (cursor last_end work : ℕ) (r : Result (Option Located × ℕ))
    → HunkKept lines chunk work r
    → PlaceKept lines chunk last_end work (
        r >>= λ (found, spent). ok_or found (invalid "hunk: expected lines not found") >>= λ at.
        fail_if
          (out_of_order lines at cursor last_end)
          (invalid "hunk: overlapping or out-of-order range")
        >> ok (place_at at spent))
hunk-PlaceKept lines chunk cursor last_end work (err e) h = tt
hunk-PlaceKept lines chunk cursor last_end work (ok (none, spent)) h = tt
hunk-PlaceKept lines chunk cursor last_end work (ok (some at, spent)) (stands, kept) =
    elim (Bool-cases (out_of_order lines at cursor last_end)) [
      | inl bad ↦ rw bad tt
      | inr good ↦ rw good (inr stands, inr (ground arith, refl, ground arith), kept)
    ]

abbrev AnchorKept : ℕ → Result (ℕ × ℕ) → Type 0
AnchorKept work (ok (cursor, spent)) = work ≤ max_match_work → spent ≤ max_match_work
AnchorKept work (err e) = Unit

anchored-AnchorKept :
    (lines : List Text) (anchor : Option Text) (cursor work : ℕ)
    → AnchorKept work (anchored lines anchor cursor work)
unfolding anchored
anchored-AnchorKept lines none cursor work = λ h. h
anchored-AnchorKept lines (some anchor) cursor work =
    go (seek lines (anchor ∷ []) cursor false work)
      (seek-Kept lines (anchor ∷ []) cursor false work)
  where
    go :
        (r : Result (Option ℕ × ℕ))
        → Kept lines (anchor ∷ []) work r
        → AnchorKept work (
            r >>= λ (found, spent).
            ok_or found (invalid "hunk: context anchor not found") >>= λ index.
            ok (index + 1, spent))
    go (err e) h = tt
    go (ok (none, spent)) h = tt
    go (ok (some i, spent)) h = h.1

anchor-PlaceKept :
    (lines : List Text) (chunk : Chunk) (last_end before : ℕ) (r : Result (ℕ × ℕ))
    → AnchorKept before r
    → PlaceKept lines chunk last_end before (
        r >>= λ (cursor, work).
        if is_empty chunk.old
        then ok (place_end lines chunk cursor last_end work)
        else find_hunk lines chunk cursor work >>= λ (found, spent).
            ok_or found (invalid "hunk: expected lines not found") >>= λ at.
            fail_if
              (out_of_order lines at cursor last_end)
              (invalid "hunk: overlapping or out-of-order range")
            >> ok (place_at at spent))
anchor-PlaceKept lines chunk last_end before (err e) h = tt
anchor-PlaceKept lines chunk last_end before (ok (cursor, work)) kept =
    elim (Bool-cases (is_empty chunk.old)) [
      | inl empty ↦ rw empty (inl (empty, refl), inl (refl, refl, refl), kept)
      | inr full ↦ rw full (
          weaken _ (
            hunk-PlaceKept lines chunk cursor last_end work (find_hunk lines chunk cursor work)
              (find_hunk-HunkKept lines chunk cursor work)))
    ]
  where
    weaken :
        (r : Result Placed)
        → PlaceKept lines chunk last_end work r
        → PlaceKept lines chunk last_end before r
    weaken (ok p) (placed, moved, fits) = (placed, moved, λ h. fits (kept h))
    weaken (err e) h = tt

pub place-PlaceKept :
    (lines : List Text) (chunk : Chunk) (cursor last_end work : ℕ)
    → PlaceKept lines chunk last_end work (place lines chunk cursor last_end work)
unfolding place
place-PlaceKept lines chunk cursor last_end work =
    anchor-PlaceKept lines chunk last_end work (anchored lines chunk.anchor cursor work)
      (anchored-AnchorKept lines chunk.anchor cursor work)
