-- ===== src/Gateway/Waiters/Removal.antt =====
-- Dropping one subscription.
use execution_provider.Prelude.{
  ℕ, ◌+◌, ◌-◌, ◌≡◌, refl, ap, false, none, some, [], ◌∷◌, ltb, length, arith, inl, inr, nat_eq,
  sum_by, Option-cases,
}
use execution_provider.Prelude.Dict.{
  Dict, get, remove, Distinct, insert-Distinct, remove-Distinct, sum_by-insert_old, sum_by-remove,
  length-remove,
}
use execution_provider.Core.Types.{Uuid}
use execution_provider.Gateway.Waiters.{Waiters, unsubscribe, removed_waiter, without}
use execution_provider.Gateway.Waiters.Counts.{IsCounted, of_user, is_user, decrement_user_lem}

without_sum :
    (f : Dict ℕ Uuid → ℕ) (job : Uuid) (rest waiters : Dict ℕ Uuid)
    (by_job : Dict Uuid (Dict ℕ Uuid))
    → f [] ≡ 0
    → get job by_job ≡ some waiters
    → sum_by (λ p. f p.1) (without job rest by_job) + f waiters
      ≡ sum_by (λ p. f p.1) by_job + f rest
without_sum f job [] waiters by_job empty here =
    omega (arith, sum_by-remove f job waiters by_job here, empty)
without_sum f job (x ∷ rest) waiters by_job empty here =
    sum_by-insert_old f job (x ∷ rest) waiters by_job here

without-Distinct :
    (job : Uuid) (rest : Dict ℕ Uuid) (by_job : Dict Uuid (Dict ℕ Uuid))
    → Distinct by_job
    → Distinct (without job rest by_job)
without-Distinct job [] by_job h = remove-Distinct job by_job h
without-Distinct job (x ∷ rest) by_job h = insert-Distinct job (x ∷ rest) by_job h

remove_missing :
    (id : ℕ) (waiters : Dict ℕ Uuid) → get id waiters ≡ none → remove id waiters ≡ waiters
remove_missing id [] h = refl
remove_missing id ((j, user) ∷ rest) h = ground (arith, remove_missing id rest)

-- Dropping a subscription, where the counters are right, never underflows a counter, whether its waiter
-- is still there or was woken, and the counters are right afterwards.
pub unsubscribe-IsCounted :
    (job : Uuid) (id : ℕ) (w : Waiters)
    → IsCounted w
    → (v : Waiters) × (unsubscribe job id w ≡ some v) × IsCounted v
unfolding unsubscribe removed_waiter
unsubscribe-IsCounted job id w h = elim (Option-cases (get job w.by_job)) [
  | inl missing ↦ (w, rw (missing, unsubscribe) refl, h)
  | inr (waiters, here) ↦
      let rest = remove id waiters in
      let part = λ (user : Uuid). without_sum (of_user user) job rest waiters w.by_job refl here in
      let all = without_sum length job rest waiters w.by_job refl here in
      let jobs = without-Distinct job rest w.by_job h.jobs in
      elim (Option-cases (get id waiters)) [
        | inl gone ↦
            let same = remove_missing id waiters gone in
            (
              record w { by_job = without job rest w.by_job },
              rw (here, gone, unsubscribe) refl,
              record {
                jobs = jobs;
                users = h.users;
                by_user = λ user. omega (arith, part user, h.by_user user, ap (of_user user) same);
                total = omega (arith, all, h.total, ap length same);
              },
            )
        | inr (user, found) ↦
            let mine = sum_by-remove (is_user user) id user waiters found in
            let (fewer, down, distinct, less) = decrement_user_lem w.by_user user h.users (
              ground (
                arith,
                mine,
                h.by_user user,
                sum_by-remove (of_user user) job waiters w.by_job here,
              )) in
            let enough : ltb w.total 1 ≡ false = ground (
              arith,
              h.total,
              sum_by-remove length job waiters w.by_job here,
              length-remove id user waiters found,
            ) in
            (
              record { by_job = without job rest w.by_job; by_user = fewer; total = w.total - 1 },
              rw (here, found, down, enough, unsubscribe) refl,
              record {
                jobs = jobs;
                users = distinct;
                by_user = λ other. omega (
                  arith,
                  part other,
                  h.by_user other,
                  less other,
                  sum_by-remove (is_user other) id user waiters found,
                );
                total = omega (
                  arith,
                  all,
                  h.total,
                  length-remove id user waiters found,
                  sum_by-remove length job waiters w.by_job here,
                );
              },
            )
      ]
]
