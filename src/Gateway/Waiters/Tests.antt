-- ===== src/Gateway/Waiters/Tests.antt =====
-- Two users who wait for two jobs, and the theorems applied there.
use execution_provider.Prelude.{◌≡◌, refl, some, [], ◌∷◌, arith, nat_eq}
use execution_provider.Gateway.Waiters.{Waiters, JobCompletions, subscribe, notify, unsubscribe}
use execution_provider.Gateway.Waiters.Counts.{IsCounted, IsBounded, subscribe-IsCounted}
use execution_provider.Gateway.Waiters.Removal.{unsubscribe-IsCounted}

abbrev waiters : Waiters
waiters = record {
  by_job = (1, (10, 5) ∷ (11, 6) ∷ []) ∷ (2, (12, 5) ∷ []) ∷ [];
  by_user = (5, 2) ∷ (6, 1) ∷ [];
  total = 3;
}

abbrev completions : JobCompletions
completions = record { next_id = 13; waiters = waiters }

woken :
    notify 1 waiters
    ≡ some (record { by_job = (2, (12, 5) ∷ []) ∷ []; by_user = (5, 1) ∷ []; total = 1 })
unfolding notify
woken = refl

waiters-IsCounted : IsCounted waiters
waiters-IsCounted = record {
  jobs = (refl, (refl, tt));
  users = (refl, (refl, tt));
  by_user = λ user. ground arith;
  total = refl;
}

waiters-IsBounded : IsBounded waiters
waiters-IsBounded = record { few = omega arith; few_of_user = λ user. ground arith }

unsubscribe-IsCounted_example : (v : Waiters) × (unsubscribe 1 11 waiters ≡ some v) × IsCounted v
unsubscribe-IsCounted_example = unsubscribe-IsCounted 1 11 waiters waiters-IsCounted

subscribe-IsCounted_example :
    IsCounted (subscribe 6 2 completions).1.waiters
    × IsBounded (subscribe 6 2 completions).1.waiters
subscribe-IsCounted_example =
    subscribe-IsCounted 6 2 completions refl waiters-IsCounted waiters-IsBounded
