-- ===== src/Core/Patch/Seek.antt =====
-- packages/process-execution-core/src/filesystem/patch.rs: `seek` and `punctuation`, which find the
-- lines of a hunk. The counter of the work is passed and returned; after an error nothing reads it.
pub mod Search
pub mod Meaning
use execution_provider.Prelude.{
  ℕ, zero, suc, ◌+◌, ◌-◌, Bool, true, false, ◌||◌, Option, none, some, List, [], ◌∷◌, map, eqb, ltb,
  leb, if◌then◌else◌, length, slice, is_some,
}
use execution_provider.Prelude.Text.{Text, between, same_text, trim, trim_end}
use execution_provider.Core.Errors.{Result, ok, err, Error, error, ErrorCode, ◌>>=◌}
use execution_provider.Core.Patch.{max_match_work}

-- The body of `punctuation`'s map.
unfoldable pub plain_character : ℕ → ℕ
plain_character c =
    if between 8208 8213 c || eqb c 8722
    then 45
    else if between 8216 8219 c
    then 39
    else if between 8220 8223 c
    then 34
    else if eqb c 160 || between 8194 8202 c || eqb c 8239 || eqb c 8287 || eqb c 12288
    then 32
    else c

unfoldable pub punctuation : Text → Text
unfolding plain_character
punctuation s = map plain_character s

-- The comparison of two lines in each pass.
unfoldable pub same_line : ℕ → Text → Text → Bool
unfolding punctuation
same_line zero a b = same_text a b
same_line (suc zero) a b = same_text (trim_end a) (trim_end b)
same_line (suc (suc zero)) a b = same_text (trim a) (trim b)
same_line _ a b = same_text (punctuation (trim a)) (punctuation (trim b))

-- `.iter().zip(pattern).all(..)`
abbrev pub all_pairs {ℓ} : {A : Type ℓ} → (A → A → Bool) → List A → List A → Bool
all_pairs same [] ys = true
all_pairs same (x ∷ xs) [] = true
all_pairs same (x ∷ xs) (y ∷ ys) = if same x y then all_pairs same xs ys else false

-- Whether the pattern stands at a position, as a pass compares lines.
unfoldable pub matches_at : ℕ → List Text → List Text → ℕ → Bool
unfolding same_line
matches_at pass lines pattern i =
    all_pairs (same_line pass) (slice i (i + length pattern) lines) pattern

abbrev pub work_error : Error
work_error = error ErrorCode.resource_limit "patch matching work limit exceeded"

-- One pass of the loop, over `n` positions from `i` on.
unfoldable pub seek_pass : ℕ → List Text → List Text → ℕ → ℕ → ℕ → Result (Option ℕ × ℕ)
unfolding matches_at
seek_pass pass lines pattern i zero work = ok (none, work)
seek_pass pass lines pattern i (suc n) work =
    let spent = work + length pattern in
    let rest = seek_pass pass lines pattern (suc i) n spent in
    if ltb max_match_work spent
    then err work_error
    else if matches_at pass lines pattern i
    then ok (some i, spent)
    else rest

-- The passes that are left, after one that found nothing.
unfoldable pub seek_passes : List ℕ → List Text → List Text → ℕ → ℕ → ℕ → Result (Option ℕ × ℕ)
unfolding seek_pass
seek_passes [] lines pattern i n work = ok (none, work)
seek_passes (pass ∷ passes) lines pattern i n work =
    seek_pass pass lines pattern i n work >>= λ (found, spent).
    let rest = seek_passes passes lines pattern i n spent in
    if is_some found then ok (found, spent) else rest

-- Where a search begins, among the positions at which the pattern fits.
abbrev pub first_position : List Text → List Text → ℕ → Bool → ℕ
first_position lines pattern start eof = if eof then length lines - length pattern else start

-- `begin..=end` has that many positions.
abbrev pub positions : List Text → List Text → ℕ → Bool → ℕ
positions lines pattern start eof =
    suc (length lines - length pattern) - first_position lines pattern start eof

unfoldable pub seek : List Text → List Text → ℕ → Bool → ℕ → Result (Option ℕ × ℕ)
unfolding seek_passes
seek lines pattern start eof work =
    if ltb (length lines) (length pattern)
    then ok (none, work)
    else seek_passes (0 ∷ 1 ∷ 2 ∷ 3 ∷ []) lines pattern (first_position lines pattern start eof)
        (positions lines pattern start eof) work
