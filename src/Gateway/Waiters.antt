-- ===== src/Gateway/Waiters.antt =====
-- apps/execution-gateway/src/job_completion.rs: the callers that wait for the completion of jobs, with
-- their bounds. A waiter is its user; the channel that wakes it carries no data. `none` of an
-- operation stands for the underflow of a counter.
pub mod Counts
pub mod Removal
mod Tests
use execution_provider.Prelude.{
  ℕ, zero, suc, ◌+◌, ◌-◌, Bool, ◌||◌, Option, none, some, List, [], ◌∷◌, leb, eqb, ltb,
  if◌then◌else◌, length, map, is_empty, unwrap_or, nat_eq,
}
use execution_provider.Prelude.Dict.{Dict, get, insert, remove}
use execution_provider.Core.Types.{Uuid}

abbrev pub max_waiters : ℕ
max_waiters = 1024

abbrev pub max_waiters_per_user : ℕ
max_waiters_per_user = 64

pub record Waiters : Type 0 where
  pub by_job : Dict Uuid (Dict ℕ Uuid)
  pub by_user : Dict Uuid ℕ
  pub total : ℕ

pub record JobCompletions : Type 0 where
  pub next_id : ℕ
  pub waiters : Waiters

pub record Subscription : Type 0 where
  pub job : Uuid
  pub id : ℕ

-- `by_user.get(&user).copied().unwrap_or_default()`
abbrev pub waiting : Uuid → Dict Uuid ℕ → ℕ
waiting user by_user = unwrap_or (get user by_user) 0

-- `by_job.entry(job).or_default()`
abbrev pub of_job : Uuid → Dict Uuid (Dict ℕ Uuid) → Dict ℕ Uuid
of_job job by_job = unwrap_or (get job by_job) []

abbrev add_waiter : Uuid → Uuid → ℕ → Waiters → Waiters
add_waiter user job id w = record {
  by_job = insert job (insert id user (of_job job w.by_job)) w.by_job;
  by_user = insert user (waiting user w.by_user + 1) w.by_user;
  total = w.total + 1;
}

-- `subscribe`: the identifier is taken in any case.
unfoldable pub subscribe : Uuid → Uuid → JobCompletions → Option Subscription × JobCompletions
subscribe user job c =
    let w = c.waiters in
    if leb max_waiters w.total || leb max_waiters_per_user (waiting user w.by_user)
    then (none, record c { next_id = c.next_id + 1 })
    else (
      some (record { job = job; id = c.next_id }),
      record { next_id = c.next_id + 1; waiters = add_waiter user job c.next_id w },
    )

abbrev counted_down : Uuid → ℕ → Dict Uuid ℕ → Option (Dict Uuid ℕ)
counted_down user zero by_user = none
counted_down user (suc zero) by_user = some (remove user by_user)
counted_down user (suc (suc n)) by_user = some (insert user (suc n) by_user)

unfoldable pub decrement_user : Dict Uuid ℕ → Uuid → Option (Dict Uuid ℕ)
decrement_user by_user user = elim (get user by_user) [
  | none ↦ some by_user
  | some count ↦ counted_down user count by_user
]

-- The loop of `notify` over the waiters of a job.
unfoldable pub decrement_users : List Uuid → Dict Uuid ℕ → Option (Dict Uuid ℕ)
unfolding decrement_user
decrement_users [] by_user = some by_user
decrement_users (user ∷ rest) by_user = elim (decrement_user by_user user) [
  | none ↦ none
  | some fewer ↦ decrement_users rest fewer
]

abbrev pub users_of : Dict ℕ Uuid → List Uuid
users_of waiters = map (λ p. p.1) waiters

abbrev less_total : Waiters → Dict Uuid (Dict ℕ Uuid) → ℕ → Option (Dict Uuid ℕ) → Option Waiters
less_total w by_job count none = none
less_total w by_job count (some by_user) =
    if ltb w.total count
    then none
    else some (record { by_job = by_job; by_user = by_user; total = w.total - count })

-- `notify`, on the waiters.
unfoldable pub notify : Uuid → Waiters → Option Waiters
unfolding decrement_users
notify job w = elim (get job w.by_job) [
  | none ↦ some w
  | some waiters ↦
      less_total w (remove job w.by_job) (length waiters)
        (decrement_users (users_of waiters) w.by_user)
]

abbrev without : Uuid → Dict ℕ Uuid → Dict Uuid (Dict ℕ Uuid) → Dict Uuid (Dict ℕ Uuid)
without job rest by_job = if is_empty rest then remove job by_job else insert job rest by_job

abbrev removed_waiter : Uuid → Dict ℕ Uuid → Option Uuid → ℕ → Waiters → Option Waiters
unfolding decrement_user
removed_waiter job waiters none id w =
    some (record w { by_job = without job (remove id waiters) w.by_job })
removed_waiter job waiters (some user) id w =
    less_total w (without job (remove id waiters) w.by_job) 1 (decrement_user w.by_user user)

-- `remove`, on the waiters, which dropping a subscription calls.
unfoldable pub unsubscribe : Uuid → ℕ → Waiters → Option Waiters
unfolding removed_waiter
unsubscribe job id w = elim (get job w.by_job) [
  | none ↦ some w
  | some waiters ↦ removed_waiter job waiters (get id waiters) id w
]
