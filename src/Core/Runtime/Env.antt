-- ===== src/Core/Runtime/Env.antt =====
-- packages/process-execution-core/src/runtime.rs: the environment of a new process. A Windows build is
-- told by an argument, as `cfg!(windows)` tells it.
pub mod Merging
use execution_provider.Prelude.{
  ℕ, ◌+◌, String, Bool, Option, none, some, List, [], ◌∷◌, ◌||◌, ◌&&◌, not, any, map, eqb, filterb,
  if◌then◌else◌, ◌==◌, string_eq,
}
use execution_provider.Prelude.Dict.{Dict, get, insert}
use execution_provider.Prelude.Text.{Text, codes, between, same_text}
use execution_provider.Core.Errors.{invalid, Result, ok, ◌>>◌, fail_if}

abbrev pub Env : Type 0
Env = Dict String String

abbrev contains : (ℕ → Bool) → String → Bool
contains p s = any p (codes s)

-- The loop's test of one variable.
abbrev pub is_invalid : String → String → Bool
is_invalid key value =
    key == "" || contains (λ c. eqb c 61 || eqb c 0) key || contains (λ c. eqb c 0) value

unfoldable pub validate_env : Env → Result (Unit {0})
validate_env [] = ok tt
validate_env ((key, value) ∷ env) =
    fail_if (is_invalid key value) (invalid "invalid environment key or value") >> validate_env env

abbrev lower : ℕ → ℕ
lower c = if between 65 90 c then c + 32 else c

-- `str::eq_ignore_ascii_case`
unfoldable pub eq_ignore_ascii_case : String → String → Bool
eq_ignore_ascii_case a b = same_text (map lower (codes a)) (map lower (codes b))

-- What the new variable leaves of the others.
abbrev pub cleared : Bool → String → Env → Env
unfolding eq_ignore_ascii_case
cleared windows key target =
    if windows then filterb (λ p. not (eq_ignore_ascii_case p.0 key)) target else target

unfoldable pub merge_env : Bool → Env → Env → Env
unfolding eq_ignore_ascii_case
merge_env windows target [] = target
merge_env windows target ((key, value) ∷ overrides) =
    merge_env windows (insert key value (cleared windows key target)) overrides

abbrev merge_snapshot : Bool → Env → Option Env → Env
unfolding merge_env
merge_snapshot windows env none = env
merge_snapshot windows env (some snapshot) = merge_env windows env snapshot

-- The environment that `start_execution` and `run_execution` merge. For a shell with a snapshot,
-- `install_state` of shell_snapshot.rs then puts the command and the snapshot's state into variables of
-- its own.
unfoldable pub merged_env : Bool → Env → Option Env → Env → Env → Env
unfolding merge_env
merged_env windows base snapshot configured request =
    merge_env windows (merge_env windows (merge_snapshot windows base snapshot) configured) request
