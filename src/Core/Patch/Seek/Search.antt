-- ===== src/Core/Patch/Seek/Search.antt =====
-- What a search for the lines of a hunk answers.
use execution_provider.Prelude.{
  ℕ, zero, suc, ◌+◌, ◌*◌, ◌≤◌, ◌<◌, ◌≡◌, refl, ap, ◌∙◌, ◌⊎◌, inl, inr, Bool, true, false, Option,
  none, some, List, [], ◌∷◌, length, ltb, arith, Bool-cases, if◌then◌else◌, is_some,
}
use execution_provider.Prelude.Text.{Text}
use execution_provider.Core.Errors.{Result, ok, err, ◌>>=◌}
use execution_provider.Core.Patch.{max_match_work}
use execution_provider.Core.Patch.Seek.{
  matches_at, seek_pass, seek_passes, seek, work_error, first_position, positions,
}

-- Under a pass, the pattern stands at none of `n` positions from `lo` on.
unfoldable pub Missed : ℕ → List Text → List Text → ℕ → ℕ → Type 0
Missed pass lines pattern lo n =
    (i : ℕ) → lo ≤ i → i < lo + n → matches_at pass lines pattern i ≡ false

-- Under a pass, position `i` is the first of them at which the pattern stands.
pub record FirstAt (pass : ℕ) (lines pattern : List Text) (lo n i : ℕ) : Type 0 where
  pub from : lo ≤ i
  pub within : i < lo + n
  pub stands : matches_at pass lines pattern i ≡ true
  pub earlier : (j : ℕ) → lo ≤ j → j < i → matches_at pass lines pattern j ≡ false

-- The first pass that finds the pattern finds it at `i`.
abbrev pub FoundBy : List ℕ → List Text → List Text → ℕ → ℕ → ℕ → Type 0
FoundBy [] lines pattern lo n i = ⊥
FoundBy (pass ∷ passes) lines pattern lo n i =
    FirstAt pass lines pattern lo n i
    ⊎ (Missed pass lines pattern lo n × FoundBy passes lines pattern lo n i)

abbrev pub MissedBy : List ℕ → List Text → List Text → ℕ → ℕ → Type 0
MissedBy [] lines pattern lo n = Unit
MissedBy (pass ∷ passes) lines pattern lo n =
    Missed pass lines pattern lo n × MissedBy passes lines pattern lo n

-- What an answer says: a position is the first of the first pass, no position means that no pass has
-- one, and an error that the comparisons would exceed the limit of the work.
abbrev pub Answers : List ℕ → List Text → List Text → ℕ → ℕ → ℕ → Result (Option ℕ × ℕ) → Type 0
Answers passes lines pattern lo n work (ok (some i, spent)) =
    FoundBy passes lines pattern lo n i × (work ≤ spent) × (spent ≤ max_match_work)
Answers passes lines pattern lo n work (ok (none, spent)) =
    MissedBy passes lines pattern lo n
    × (spent ≡ work + length passes * (n * length pattern))
    × ((work ≤ max_match_work) → spent ≤ max_match_work)
Answers passes lines pattern lo n work (err e) =
    (e ≡ work_error) × (max_match_work < work + length passes * (n * length pattern))

abbrev pub all_passes : List ℕ
all_passes = 0 ∷ 1 ∷ 2 ∷ 3 ∷ []

split_le : (a b : ℕ) → a ≤ b → (b ≡ a) ⊎ (suc a ≤ b)
split_le a b h = ground arith

Missed-more :
    (pass : ℕ) (lines pattern : List Text) (lo n : ℕ)
    → matches_at pass lines pattern lo ≡ false
    → Missed pass lines pattern (suc lo) n
    → Missed pass lines pattern lo (suc n)
unfolding Missed
Missed-more pass lines pattern lo n here later i from within = elim (split_le lo i from) [
  | inl at ↦ ap (matches_at pass lines pattern) at ∙ here
  | inr past ↦ later i past (omega arith)
]

FirstAt-more :
    (pass : ℕ) (lines pattern : List Text) (lo n i : ℕ)
    → matches_at pass lines pattern lo ≡ false
    → FirstAt pass lines pattern (suc lo) n i
    → FirstAt pass lines pattern lo (suc n) i
FirstAt-more pass lines pattern lo n i here later = record {
  from = omega (arith, later.from);
  within = omega (arith, later.within);
  stands = later.stands;
  earlier = λ j from before. elim (split_le lo j from) [
    | inl at ↦ ap (matches_at pass lines pattern) at ∙ here
    | inr past ↦ later.earlier j past before
  ];
}

FirstAt-here :
    (pass : ℕ) (lines pattern : List Text) (lo n : ℕ)
    → matches_at pass lines pattern lo ≡ true
    → FirstAt pass lines pattern lo (suc n) lo
FirstAt-here pass lines pattern lo n here = record {
  from = omega arith;
  within = omega arith;
  stands = here;
  earlier = λ j from before. absurd (omega arith);
}

Answers-more :
    (pass : ℕ) (lines pattern : List Text) (lo n work : ℕ) (r : Result (Option ℕ × ℕ))
    → matches_at pass lines pattern lo ≡ false
    → work + length pattern ≤ max_match_work
    → Answers (pass ∷ []) lines pattern (suc lo) n (work + length pattern) r
    → Answers (pass ∷ []) lines pattern lo (suc n) work r
Answers-more pass lines pattern lo n work (ok (none, spent)) here fits (missed, is, kept) =
    ((Missed-more pass lines pattern lo n here missed.0, tt), ground arith, λ h. kept fits)
Answers-more pass lines pattern lo n work (ok (some i, spent)) here fits (inl first, more, kept) =
    (inl (FirstAt-more pass lines pattern lo n i here first), omega arith, kept)
Answers-more pass lines pattern lo n work (ok (some i, spent)) here fits (inr found, more, kept) =
    absurd found.1
Answers-more pass lines pattern lo n work (err e) here fits (is, over) = (is, ground arith)

seek_pass-Answers :
    (pass : ℕ) (lines pattern : List Text) (lo n work : ℕ)
    → Answers (pass ∷ []) lines pattern lo n work (seek_pass pass lines pattern lo n work)
unfolding seek_pass Missed
seek_pass-Answers pass lines pattern lo zero work =
    ((λ i from within. absurd (omega arith), tt), ground arith, λ h. h)
seek_pass-Answers pass lines pattern lo (suc n) work =
    let rest = seek_pass-Answers pass lines pattern (suc lo) n (work + length pattern) in
    elim (Bool-cases (ltb max_match_work (work + length pattern))) [
      | inl over ↦ rw over (refl, ground arith)
      | inr fits ↦ elim (Bool-cases (matches_at pass lines pattern lo)) [
        | inl here ↦
            rw (fits, here)
              (inl (FirstAt-here pass lines pattern lo n here), omega arith, ground arith)
        | inr here ↦
            rw (fits, here)
              (Answers-more pass lines pattern lo n work
                (seek_pass pass lines pattern (suc lo) n (work + length pattern)) here
                (ground arith) rest)
      ]
    ]

Answers-late :
    (pass : ℕ) (passes : List ℕ) (lines pattern : List Text) (lo n work spent : ℕ)
    (r : Result (Option ℕ × ℕ))
    → Missed pass lines pattern lo n
    → spent ≡ work + 1 * (n * length pattern)
    → (work ≤ max_match_work → spent ≤ max_match_work)
    → Answers passes lines pattern lo n spent r
    → Answers (pass ∷ passes) lines pattern lo n work r
Answers-late pass passes lines pattern lo n work spent (err e) missed is kept (same, over) =
    (same, ground arith)
Answers-late pass passes lines pattern lo n work spent (ok (some i, w)) missed is kept
      (found, more, fits) =
    (inr (missed, found), ground arith, fits)
Answers-late pass passes lines pattern lo n work spent (ok (none, w)) missed is kept
      (none_left, ws, k) =
    ((missed, none_left), ground arith, λ h. k (kept h))

Answers-next :
    (pass : ℕ) (passes : List ℕ) (lines pattern : List Text) (lo n work : ℕ)
    (r : Result (Option ℕ × ℕ))
    → Answers (pass ∷ []) lines pattern lo n work r
    → ((spent : ℕ)
        → Answers passes lines pattern lo n spent (seek_passes passes lines pattern lo n spent))
    → Answers (pass ∷ passes) lines pattern lo n work (
        r >>= λ (found, spent).
        if is_some found then ok (found, spent) else seek_passes passes lines pattern lo n spent)
Answers-next pass passes lines pattern lo n work (err e) (is, over) rest = (is, ground arith)
Answers-next pass passes lines pattern lo n work (ok (some i, spent)) (inl first, more, kept) rest =
    (inl first, more, kept)
Answers-next pass passes lines pattern lo n work (ok (some i, spent)) (inr found, more, kept) rest =
    absurd found.1
Answers-next pass passes lines pattern lo n work (ok (none, spent)) (missed, is, kept) rest =
    Answers-late pass passes lines pattern lo n work spent
      (seek_passes passes lines pattern lo n spent) missed.0 is kept (rest spent)

seek_passes-Answers :
    (passes : List ℕ) (lines pattern : List Text) (lo n work : ℕ)
    → Answers passes lines pattern lo n work (seek_passes passes lines pattern lo n work)
unfolding seek_passes
seek_passes-Answers [] lines pattern lo n work = (tt, omega arith, λ h. h)
seek_passes-Answers (pass ∷ passes) lines pattern lo n work =
    Answers-next pass passes lines pattern lo n work (seek_pass pass lines pattern lo n work)
      (seek_pass-Answers pass lines pattern lo n work)
      (λ spent. seek_passes-Answers passes lines pattern lo n spent)

pub seek_lem :
    (lines pattern : List Text) (start : ℕ) (eof : Bool) (work : ℕ)
    → length pattern ≤ length lines
    → Answers all_passes lines pattern
        (first_position lines pattern start eof)
        (positions lines pattern start eof)
        work
        (seek lines pattern start eof work)
unfolding seek
seek_lem lines pattern start eof work fits =
    let enough : ltb (length lines) (length pattern) ≡ false = ground arith in
    rw enough (
      seek_passes-Answers all_passes lines pattern (first_position lines pattern start eof)
        (positions lines pattern start eof) work)
