-- ===== src/Core/Runtime/Env/Merging.antt =====
-- Which variable an environment has behind a merge.
use execution_provider.Prelude.{
  ◌≡◌, refl, ap, ◌∙◌, inl, inr, String, Bool, true, false, Option, none, some, [], ◌∷◌, ◌||◌, ◌&&◌,
  not, is_some, filterb, if◌then◌else◌, ◌==◌, string_eq, arith, Bool-cases,
}
use text.Mathlib.TextEquality.{eq_iff}
use execution_provider.Prelude.Dict.{get, insert, get-insert}
use execution_provider.Core.Runtime.Env.{Env, eq_ignore_ascii_case, cleared, merge_env}

-- Whether setting `key` does away with the variable `name`.
abbrev pub clashes : Bool → String → String → Bool
unfolding eq_ignore_ascii_case
clashes windows key name = key == name || (windows && eq_ignore_ascii_case name key)

-- The last variable that does.
abbrev pub winner : Bool → String → Env → Option (String × String)
unfolding eq_ignore_ascii_case
winner windows name [] = none
winner windows name ((key, value) ∷ env) =
    let later = winner windows name env in
    if is_some later then later else if clashes windows key name then some (key, value) else none

-- The variable is the winner's if it bears the very name, and gone if it does not; without a winner it
-- is as it was.
abbrev pub decided : String → Option (String × String) → Option String → Option String
decided name none before = before
decided name (some (key, value)) before = if key == name then some value else none

get-filterb :
    (p : String → Bool) (name : String) (env : Env)
    → get name (filterb (λ e. p e.0) env) ≡ (if p name then get name env else none)
get-filterb p name [] = ground arith
get-filterb p name ((key, value) ∷ env) = elim (Bool-cases (key == name)) [
  | inl same ↦
      let e : p key ≡ p name = ap p ((eq_iff key name).0 same) in
      ground (arith, e, same, get-filterb p name env)
  | inr other ↦ ground (arith, other, get-filterb p name env)
]

get-cleared :
    (windows : Bool) (key name : String) (env : Env)
    → get name (cleared windows key env)
      ≡ (if windows && eq_ignore_ascii_case name key then none else get name env)
unfolding cleared
get-cleared true key name env =
    ground (arith, get-filterb (λ n. not (eq_ignore_ascii_case n key)) name env)
get-cleared false key name env = refl

get-one :
    (windows : Bool) (key value name : String) (env : Env)
    → get name (insert key value (cleared windows key env)) ≡ (
        if clashes windows key name
        then decided name (some (key, value)) (get name env)
        else get name env)
unfolding clashes
get-one windows key value name env = elim (Bool-cases (key == name)) [
  | inl same ↦ get-insert key name value (cleared windows key env) ∙ simp same refl
  | inr other ↦
      get-insert key name value (cleared windows key env)
      ∙ simp other (get-cleared windows key name env)
]

decided-winner :
    (windows : Bool) (key value name : String) (later : Option (String × String))
    (before : Option String)
    → decided name later
        (if clashes windows key name then decided name (some (key, value)) before else before)
      ≡ decided name
          (if is_some later
            then later
            else if clashes windows key name
            then some (key, value)
            else none)
          before
decided-winner windows key value name none before = elim (Bool-cases (clashes windows key name)) [
  | inl does ↦ rw does refl
  | inr not_so ↦ rw not_so refl
]
decided-winner windows key value name (some last) before = refl

-- A merge decides each name by the last override that clashes with it, which is one of the same name
-- or, on Windows, one that differs in the case of letters only: the variable has its value if it bears
-- the very name, and is gone if not. A name that clashes with no override keeps what it had.
pub get-merge_env :
    (windows : Bool) (target overrides : Env) (name : String)
    → get name (merge_env windows target overrides)
      ≡ decided name (winner windows name overrides) (get name target)
unfolding merge_env
get-merge_env windows target [] name = refl
get-merge_env windows target ((key, value) ∷ overrides) name =
    get-merge_env windows (insert key value (cleared windows key target)) overrides name
    ∙ ap (decided name (winner windows name overrides)) (get-one windows key value name target)
    ∙ decided-winner windows key value name (winner windows name overrides) (get name target)
