-- ===== src/Daemon/Receipts/Tests.antt =====
-- The history of the source's own test, and the theorems applied on it.
use text.Mathlib.TextEquality.{eq_iff}
use execution_provider.Prelude.{
  ◌≢◌, String, ◌+◌, ◌<◌, ◌≤◌, ◌≡◌, ◌↔◌, refl, false, none, some, [], ◌∷◌, arith, length, string_eq,
}
use execution_provider.Prelude.Dict.{get}
use execution_provider.Protocol.Limits.{max_frame_bytes}
use execution_provider.Daemon.Receipts.{
  Receipts, Receipt, Admission, default, accept, complete, next_response, acknowledge, max_receipts,
  max_bytes,
}
use execution_provider.Daemon.Receipts.Capacity.{IsValid}
use execution_provider.Daemon.Receipts.Retention.{accept-new_iff, acknowledge_forgets}
use execution_provider.Daemon.Receipts.Runs.{start, next, accepts, completes, Reach-IsValid}

abbrev open_receipt : Receipt
open_receipt = record { fingerprint = 1; response = none }

abbrev accepted : Receipts
accepted = record { entries = ("one", open_receipt) ∷ []; bytes = max_frame_bytes }

abbrev completed : Receipts
completed = record {
  entries = ("one", record { fingerprint = 1; response = some "response" }) ∷ [];
  bytes = 8;
}

first_admission : accept default "one" 1 false ≡ (Admission.new, accepted)
unfolding accept
first_admission = refl

completion : complete accepted "one" "response" ≡ some completed
unfolding complete
completion = refl

acknowledged : acknowledge completed "one" ≡ default
unfolding acknowledge
acknowledged = refl

early_acknowledgement : acknowledge accepted "one" ≡ accepted
unfolding acknowledge
early_acknowledgement = refl

resent : next_response completed [] ≡ some ("one", "response")
unfolding next_response
resent = refl

accepted-IsValid : IsValid accepted
accepted-IsValid = record {
  distinct = (refl, tt);
  counted = refl;
  few = omega arith;
  small = omega arith;
}

one_not_two : ◌≢◌ {A = String} "one" "two"
one_not_two e = ground (arith, eq_iff "one" "two")

accept-new_iff_example :
    let (admission, r') = accept accepted "two" 5 false in
    (admission ≡ Admission.new) ↔ (
      (get "two" accepted.entries ≡ none)
      × (false ≡ false)
      × (length accepted.entries < max_receipts)
      × (accepted.bytes + max_frame_bytes ≤ max_bytes)
      × (get "two" r'.entries ≡ some (record { fingerprint = 5; response = none })))
accept-new_iff_example = accept-new_iff accepted "two" 5 false

acknowledge_forgets_example : get "one" (acknowledge completed "one").entries ≡ none
acknowledge_forgets_example = acknowledge_forgets completed "one" "one" (refl, tt)

Reach-IsValid_example : IsValid completed
unfolding accept complete
Reach-IsValid_example = Reach-IsValid (
    next {r = accepted} {r' = completed}
      (next {r = default} {r' = accepted} start (accepts "one" 1 false))
      (completes "one" "response" open_receipt refl refl (omega arith) refl))
