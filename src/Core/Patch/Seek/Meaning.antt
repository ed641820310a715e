-- ===== src/Core/Patch/Seek/Meaning.antt =====
-- What a search answers, said of the lines themselves.
use execution_provider.Prelude.{
  ℕ, zero, suc, ◌+◌, ◌-◌, ◌*◌, ◌≤◌, ◌<◌, ◌≡◌, ◌↔◌, refl, sym, ap, ◌∙◌, inl, inr, Bool, true, false,
  Option, none, some, List, [], ◌∷◌, length, take, drop, map, length-take, length-drop, ◌⊎◌, subst,
  arith, Bool-cases,
}
use execution_provider.Prelude.Text.{Text, same_text_iff, trim, trim_end}
use execution_provider.Core.Errors.{Result, ok, err}
use execution_provider.Core.Patch.{max_match_work}
use execution_provider.Core.Patch.Seek.{
  plain_character, punctuation, same_line, all_pairs, matches_at, seek, work_error, first_position,
  positions,
}
use execution_provider.Core.Patch.Seek.Search.{
  Answers, FirstAt, FoundBy, Missed, all_passes, seek_lem,
}

-- What of a line each way to compare looks at: all of it, all but white space at its end, all but white
-- space at both ends, and the same with plain punctuation.
abbrev pub seen : ℕ → Text → Text
seen zero line = line
seen (suc zero) line = trim_end line
seen (suc (suc zero)) line = trim line
seen (suc (suc (suc pass))) line = map plain_character (trim line)

-- The lines from a position on are those of the pattern.
abbrev pub Stands : ℕ → List Text → List Text → ℕ → Type 0
Stands pass lines pattern i =
    map (seen pass) (take (length pattern) (drop i lines)) ≡ map (seen pass) pattern

-- A position where the search looks: the pattern fits there, and it is the last such one if the hunk is
-- at the end of the file, else not before `start`.
abbrev pub IsPosition : List Text → List Text → ℕ → Bool → ℕ → Type 0
IsPosition lines pattern start true i = i + length pattern ≡ length lines
IsPosition lines pattern start false i = (start ≤ i) × (i + length pattern ≤ length lines)

same_line_iff : (pass : ℕ) (a b : Text) → (same_line pass a b ≡ true) ↔ (seen pass a ≡ seen pass b)
unfolding same_line
same_line_iff zero a b = same_text_iff a b
same_line_iff (suc zero) a b = same_text_iff (trim_end a) (trim_end b)
same_line_iff (suc (suc zero)) a b = same_text_iff (trim a) (trim b)
same_line_iff (suc (suc (suc pass))) a b =
    same_text_iff (punctuation (trim a)) (punctuation (trim b))

heads : (x y : Text) (xs ys : List Text) → x ∷ xs ≡ y ∷ ys → x ≡ y
heads x y xs ys e = cc

tails : (x y : Text) (xs ys : List Text) → x ∷ xs ≡ y ∷ ys → xs ≡ ys
tails x y xs ys e = cc

all_pairs-equal :
    (pass : ℕ) (xs ys : List Text)
    → length xs ≡ length ys
    → all_pairs (same_line pass) xs ys ≡ true
    → map (seen pass) xs ≡ map (seen pass) ys
all_pairs-equal pass [] [] same h = refl
all_pairs-equal pass [] (y ∷ ys) same h = absurd (omega arith)
all_pairs-equal pass (x ∷ xs) [] same h = absurd (omega arith)
all_pairs-equal pass (x ∷ xs) (y ∷ ys) same h = elim (Bool-cases (same_line pass x y)) [
  | inl is ↦
      let here : seen pass x ≡ seen pass y = (same_line_iff pass x y).0 is in
      let later = all_pairs-equal pass xs ys (omega (arith, same)) (ground (arith, h, is)) in
      cc (here, later)
  | inr other ↦ absurd (ground (arith, h, other))
]

equal-all_pairs :
    (pass : ℕ) (xs ys : List Text)
    → map (seen pass) xs ≡ map (seen pass) ys
    → all_pairs (same_line pass) xs ys ≡ true
equal-all_pairs pass [] ys h = refl
equal-all_pairs pass (x ∷ xs) [] h = absurd (cc h)
equal-all_pairs pass (x ∷ xs) (y ∷ ys) h =
    let is =
      (same_line_iff pass x y).1
        (heads (seen pass x) (seen pass y) (map (seen pass) xs) (map (seen pass) ys) h) in
    let later =
      equal-all_pairs pass xs ys
        (tails (seen pass x) (seen pass y) (map (seen pass) xs) (map (seen pass) ys) h) in
    rw (is, later) refl

stands_lem :
    (pass : ℕ) (lines pattern : List Text) (i : ℕ)
    → i + length pattern ≤ length lines
    → (matches_at pass lines pattern i ≡ true) ↔ Stands pass lines pattern i
unfolding matches_at
stands_lem pass lines pattern i fits =
    let width : i + length pattern - i ≡ length pattern = omega arith in
    let part = take (length pattern) (drop i lines) in
    let whole : length part ≡ length pattern =
      omega (arith, length-take (length pattern) (drop i lines), length-drop i lines, fits) in
    let same : matches_at pass lines pattern i ≡ all_pairs (same_line pass) part pattern =
      ap (λ n. all_pairs (same_line pass) (take n (drop i lines)) pattern) width in
    (
      λ m. all_pairs-equal pass part pattern whole (sym same ∙ m),
      λ e. same ∙ equal-all_pairs pass part pattern e,
    )

-- How many positions there are.
abbrev pub position_count : List Text → List Text → ℕ → Bool → ℕ
position_count lines pattern start true = 1
position_count lines pattern start false = suc (length lines) - (start + length pattern)

pub count_lem :
    (lines pattern : List Text) (start : ℕ) (eof : Bool)
    → length pattern ≤ length lines
    → positions lines pattern start eof ≡ position_count lines pattern start eof
count_lem lines pattern start true fits = omega arith
count_lem lines pattern start false fits = omega arith

abbrev InRange : List Text → List Text → ℕ → Bool → ℕ → Type 0
InRange lines pattern start eof i =
    (first_position lines pattern start eof ≤ i)
    × (i < first_position lines pattern start eof + positions lines pattern start eof)

position_lem :
    (lines pattern : List Text) (start : ℕ) (eof : Bool) (i : ℕ)
    → length pattern ≤ length lines
    → InRange lines pattern start eof i ↔ IsPosition lines pattern start eof i
position_lem lines pattern start true i fits =
    (λ h. omega (arith, h.0, h.1), λ e. (omega (arith, e), omega (arith, e)))
position_lem lines pattern start false i fits =
    (λ h. (h.0, omega (arith, h.0, h.1)), λ e. (e.0, omega (arith, e.0, e.1)))

position_fits :
    (lines pattern : List Text) (start : ℕ) (eof : Bool) (i : ℕ)
    → IsPosition lines pattern start eof i
    → i + length pattern ≤ length lines
position_fits lines pattern start true i e = omega arith
position_fits lines pattern start false i e = e.1

module _ (lines pattern : List Text) (start : ℕ) (eof : Bool) where
  -- Nowhere do the lines stand, as a way to compare sees them.
  abbrev pub Nowhere : ℕ → Type 0
  Nowhere pass = (j : ℕ) → IsPosition lines pattern start eof j → Stands pass lines pattern j → ⊥

  -- Position `i` is the first at which they do.
  abbrev pub First : ℕ → ℕ → Type 0
  First pass i =
      IsPosition lines pattern start eof i
      × Stands pass lines pattern i
      × ((j : ℕ) → IsPosition lines pattern start eof j → j < i → Stands pass lines pattern j → ⊥)

  -- The first way to compare that finds the lines finds them first at `i`.
  abbrev pub FoundAt : ℕ → Type 0
  FoundAt i =
      First 0 i
      ⊎ ((Nowhere 0 × First 1 i)
          ⊎ ((Nowhere 0 × Nowhere 1 × First 2 i) ⊎ (Nowhere 0 × Nowhere 1 × Nowhere 2 × First 3 i)))

  -- What a search says, with the work before and behind it.
  abbrev pub Finds : ℕ → Result (Option ℕ × ℕ) → Type 0
  Finds work (ok (some i, spent)) = FoundAt i × (work ≤ spent) × (spent ≤ max_match_work)
  Finds work (ok (none, spent)) =
      (Nowhere 0 × Nowhere 1 × Nowhere 2 × Nowhere 3)
      × (spent ≡ work + 4 * (position_count lines pattern start eof * length pattern))
      × ((work ≤ max_match_work) → spent ≤ max_match_work)
  Finds work (err e) =
      (e ≡ work_error)
      × (max_match_work < work + 4 * (position_count lines pattern start eof * length pattern))

  module _ (fits : length pattern ≤ length lines) where
    Missed-Nowhere :
        (pass : ℕ)
        → Missed pass lines pattern
            (first_position lines pattern start eof)
            (positions lines pattern start eof)
        → Nowhere pass
    unfolding Missed
    Missed-Nowhere pass missed j at stands =
        let (lo, hi) = (position_lem lines pattern start eof j fits).1 at in
        let m =
          (stands_lem pass lines pattern j (position_fits lines pattern start eof j at)).1 stands in
        absurd (cc (missed j lo hi, m))

    pub FirstAt-First :
        (pass i : ℕ)
        → FirstAt pass lines pattern
            (first_position lines pattern start eof)
            (positions lines pattern start eof)
            i
        → First pass i
    FirstAt-First pass i f =
        let at = (position_lem lines pattern start eof i fits).0 (f.from, f.within) in
        (
          at,
          (stands_lem pass lines pattern i (position_fits lines pattern start eof i at)).0 f.stands,
          λ j there before stands.
              let (lo, hi) = (position_lem lines pattern start eof j fits).1 there in
              let m =
                (stands_lem pass lines pattern j (position_fits lines pattern start eof j there)).1
                  stands in
              absurd (cc (f.earlier j lo before, m)),
        )

    pub First-FirstAt :
        (pass i : ℕ)
        → First pass i
        → FirstAt pass lines pattern
            (first_position lines pattern start eof)
            (positions lines pattern start eof)
            i
    First-FirstAt pass i (at, stands, earlier) =
        let (lo, hi) = (position_lem lines pattern start eof i fits).1 at in
        record {
          from = lo;
          within = hi;
          stands =
              (stands_lem pass lines pattern i (position_fits lines pattern start eof i at)).1
                stands;
          earlier = λ j low below.
              let there = (position_lem lines pattern start eof j fits).0 (low, omega arith) in
              elim (Bool-cases (matches_at pass lines pattern j)) [
                | inl m ↦ absurd (
                    earlier j there below (
                      (stands_lem pass lines pattern j
                          (position_fits lines pattern start eof j there)).0
                        m))
                | inr other ↦ other
              ];
        }

    FoundBy-FoundAt :
        (i : ℕ)
        → FoundBy all_passes lines pattern
            (first_position lines pattern start eof)
            (positions lines pattern start eof)
            i
        → FoundAt i
    FoundBy-FoundAt i (inl f) = inl (FirstAt-First 0 i f)
    FoundBy-FoundAt i (inr (m, inl f)) = inr (inl (Missed-Nowhere 0 m, FirstAt-First 1 i f))
    FoundBy-FoundAt i (inr (m, inr (n, inl f))) =
        inr (inr (inl (Missed-Nowhere 0 m, Missed-Nowhere 1 n, FirstAt-First 2 i f)))
    FoundBy-FoundAt i (inr (m, inr (n, inr (o, inl f)))) = inr (
        inr (inr (Missed-Nowhere 0 m, Missed-Nowhere 1 n, Missed-Nowhere 2 o, FirstAt-First 3 i f)))
    FoundBy-FoundAt i (inr (m, inr (n, inr (o, inr none_left)))) = absurd none_left.1

    Answers-Finds :
        (work : ℕ) (r : Result (Option ℕ × ℕ))
        → Answers all_passes lines pattern
            (first_position lines pattern start eof)
            (positions lines pattern start eof)
            work
            r
        → Finds work r
    Answers-Finds work (ok (some i, spent)) (found, more, kept) =
        (FoundBy-FoundAt i found, more, kept)
    Answers-Finds work (ok (none, spent)) ((a, (b, (c, (d, nothing)))), is, kept) = (
      (Missed-Nowhere 0 a, Missed-Nowhere 1 b, Missed-Nowhere 2 c, Missed-Nowhere 3 d),
      is ∙ ap (λ n. work + 4 * (n * length pattern)) (count_lem lines pattern start eof fits),
      kept,
    )
    Answers-Finds work (err e) (is, over) = (
      is,
      subst (λ n. max_match_work < work + 4 * (n * length pattern))
          (count_lem lines pattern start eof fits) over,
    )

-- A search for a pattern that is no longer than the text looks at the positions from its beginning to
-- the last one that fits, or only at that one, under four ways to compare lines: whole, without white
-- space at their ends, without it at both ends, and with plain punctuation besides. It answers with
-- the first position of the first way that finds the lines; it answers that there is none only if no
-- way finds them, with the work of comparing everywhere; and it fails only if that work would exceed
-- the limit, which no answer exceeds if it was kept before.
pub seek-Answers :
    (lines pattern : List Text) (start : ℕ) (eof : Bool) (work : ℕ)
    → length pattern ≤ length lines
    → Finds lines pattern start eof work (seek lines pattern start eof work)
seek-Answers lines pattern start eof work fits =
    Answers-Finds lines pattern start eof fits work (seek lines pattern start eof work)
      (seek_lem lines pattern start eof work fits)
