-- ===== src/Gateway/Waiters/Counts.antt =====
-- The counters of waiters agree with the waiters that are listed, and stay within their bounds.
use execution_provider.Prelude.{
  ℕ, zero, suc, ◌+◌, ◌≤◌, ◌≡◌, refl, ap, ◌||◌, none, some, List, [], leb, eqb, if◌then◌else◌,
  length, arith, inl, inr, unwrap_or, nat_eq, sum_by, Option-cases, Bool-cases,
}
use execution_provider.Prelude.Dict.{
  Dict, get, insert, remove, Distinct, get-insert, get-remove_ne, get-remove_self, insert-Distinct,
  remove-Distinct, sum_by-insert_new, sum_by-insert_old, length-insert_new,
}
use execution_provider.Core.Types.{Uuid}
use execution_provider.Gateway.Waiters.{
  Waiters, JobCompletions, waiting, of_job, subscribe, decrement_user, add_waiter, max_waiters,
  max_waiters_per_user,
}

-- How often a user is among the waiters of one job, and of all jobs.
abbrev pub is_user : Uuid → Uuid → ℕ
is_user user other = if eqb user other then 1 else 0

abbrev pub of_user : Uuid → Dict ℕ Uuid → ℕ
of_user user waiters = sum_by (λ p. is_user user p.1) waiters

abbrev pub all_of_user : Uuid → Dict Uuid (Dict ℕ Uuid) → ℕ
all_of_user user by_job = sum_by (λ p. of_user user p.1) by_job

-- The counters of a set of waiters are right: of every user, and of all together.
pub record IsCounted (w : Waiters) : Type 0 where
  pub jobs : Distinct w.by_job
  pub users : Distinct w.by_user
  pub by_user : (user : Uuid) → waiting user w.by_user ≡ all_of_user user w.by_job
  pub total : w.total ≡ sum_by (λ p. length p.1) w.by_job

-- Counting a user down by one, where it is counted.
pub decrement_user_lem :
    (by_user : Dict Uuid ℕ) (user : Uuid)
    → Distinct by_user
    → 1 ≤ waiting user by_user
    → (fewer : Dict Uuid ℕ) × (decrement_user by_user user ≡ some fewer)
      × Distinct fewer
      × ((other : Uuid) → waiting other fewer + is_user other user ≡ waiting other by_user)
unfolding decrement_user
decrement_user_lem by_user user distinct positive = elim (Option-cases (get user by_user)) [
  | inl missing ↦ absurd (ground (arith, missing))
  | inr (zero, here) ↦ absurd (ground (arith, here))
  | inr (suc zero, here) ↦ (
    remove user by_user,
    rw (here, decrement_user) refl,
    remove-Distinct user by_user distinct,
    λ other. elim (Bool-cases (eqb other user)) [
      | inl same ↦ ground (arith, same, here, get-remove_self user by_user distinct)
      | inr differs ↦
          ground
            (arith, differs, get-remove_ne user other by_user (λ e. ground (arith, differs, e)))
    ],
  )
  | inr (suc (suc n), here) ↦ (
    insert user (suc n) by_user,
    rw (here, decrement_user) refl,
    insert-Distinct user (suc n) by_user distinct,
    λ other. ground (arith, here, get-insert user other (suc n) by_user),
  )
]

abbrev count_in : Uuid → List Uuid → ℕ
count_in user users = sum_by (is_user user) users

-- How a sum over the jobs grows when one job's waiters are replaced.
grown :
    (f : Dict ℕ Uuid → ℕ) (job : Uuid) (more : Dict ℕ Uuid) (by_job : Dict Uuid (Dict ℕ Uuid))
    → f [] ≡ 0
    → sum_by (λ p. f p.1) (insert job more by_job) + f (of_job job by_job)
      ≡ sum_by (λ p. f p.1) by_job + f more
grown f job more by_job none_of_none = elim (Option-cases (get job by_job)) [
  | inl missing ↦ omega (
    arith,
    sum_by-insert_new f job more by_job missing,
    none_of_none,
    ap (λ o. f (unwrap_or o [])) missing,
  )
  | inr (waiters, here) ↦
      omega
        (arith, sum_by-insert_old f job more waiters by_job here, ap (λ o. f (unwrap_or o [])) here)
]

-- The bounds on the waiters of all users and of each.
pub record IsBounded (w : Waiters) : Type 0 where
  pub few : w.total ≤ max_waiters
  pub few_of_user : (user : Uuid) → waiting user w.by_user ≤ max_waiters_per_user

add_waiter-IsCounted :
    (user job : Uuid) (id : ℕ) (w : Waiters)
    → get id (of_job job w.by_job) ≡ none
    → IsCounted w
    → IsCounted (add_waiter user job id w)
add_waiter-IsCounted user job id w fresh h =
    let waiters = of_job job w.by_job in
    record {
      jobs = insert-Distinct job (insert id user waiters) w.by_job h.jobs;
      users = insert-Distinct user (waiting user w.by_user + 1) w.by_user h.users;
      by_user = λ other. ground (
        arith,
        get-insert user other (waiting user w.by_user + 1) w.by_user,
        grown (of_user other) job (insert id user waiters) w.by_job refl,
        sum_by-insert_new (is_user other) id user waiters fresh,
        h.by_user other,
      );
      total = omega (
        arith,
        h.total,
        grown length job (insert id user waiters) w.by_job refl,
        length-insert_new id user waiters fresh,
      );
    }

-- A subscription under an identifier that the job does not have yet keeps the counters right and within
-- 1024 waiters and 64 of each user, whether it is granted or refused.
pub subscribe-IsCounted :
    (user job : Uuid) (c : JobCompletions)
    → get c.next_id (of_job job c.waiters.by_job) ≡ none
    → IsCounted c.waiters
    → IsBounded c.waiters
    → IsCounted (subscribe user job c).1.waiters × IsBounded (subscribe user job c).1.waiters
unfolding subscribe
subscribe-IsCounted user job c fresh h bounded =
    elim (Bool-cases (
      leb max_waiters c.waiters.total
      || leb max_waiters_per_user (waiting user c.waiters.by_user))) [
        | inl full ↦ rw (full, subscribe) (h, bounded)
        | inr room ↦
            rw (room, subscribe)
              (
                add_waiter-IsCounted user job c.next_id c.waiters fresh h,
                record {
                  few = ground (arith, room, bounded.few);
                  few_of_user = λ other. ground (
                    arith,
                    room,
                    bounded.few_of_user other,
                    get-insert user other (waiting user c.waiters.by_user + 1) c.waiters.by_user,
                  );
                },
              )
      ]
