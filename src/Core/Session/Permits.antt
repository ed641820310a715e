-- ===== src/Core/Session/Permits.antt =====
-- The input queue's permits: every byte that is accepted and not yet written holds one.
use execution_provider.Prelude.{
  ℕ, ◌+◌, ◌≡◌, refl, String, some, [], ◌∷◌, arith, sum_by, sum_by-append,
}
use execution_provider.Core.Errors.{ok}
use execution_provider.Core.Types.{Bytes, Time, InputReceipt, OutputStream, StdinState}
use execution_provider.Core.Spool.{WriteOutcome}
use execution_provider.Core.Session.{
  Session, Input, permits, terminate, write, close_input, finish, launch, root_exit, capture,
  receive, written, end_input, enqueue,
}
use execution_provider.Core.Session.Lifecycle.{
  Phase, Step, terminates, writes, closes, spawn_fails, interrupts, resizes, types_interrupt,
  cancelled, launches, captures, captures_late, receives, writes_out, ends_input, exits,
  drain_fails, finishes,
}

-- Free permits, permits of queued input and those of the item being written.
abbrev pub all_permits : Session → ℕ
all_permits s = s.input_capacity + sum_by permits s.queue + s.in_flight

-- No permit is lost or made up.
abbrev Keeps : Session → Session → Type 0
Keeps s t = (all_permits t ≡ all_permits s) × (t.limits ≡ s.limits)

write-Keeps :
    (s t : Session) (digest : Bytes → ℕ) (input_id : String) (data_bytes : Bytes)
    (receipt : InputReceipt)
    → write digest input_id data_bytes s ≡ ok (receipt, t)
    → Keeps s t
unfolding write
write-Keeps s t digest input_id data_bytes receipt e =
    ground (arith, sum_by-append permits s.queue (Input.bytes data_bytes ∷ []))

enqueue-Keeps : (s t : Session) (data_bytes : Bytes) → enqueue data_bytes s ≡ ok t → Keeps s t
unfolding enqueue
enqueue-Keeps s t data_bytes e =
    ground (arith, sum_by-append permits s.queue (Input.bytes data_bytes ∷ []))

close_input-Keeps : (s t : Session) (state : StdinState) → close_input s ≡ ok (state, t) → Keeps s t
unfolding close_input
close_input-Keeps s t state e = ground (arith, sum_by-append permits s.queue (Input.close ∷ []))

capture-Keeps :
    (s t : Session) (disk : Bytes → WriteOutcome) (stream : OutputStream) (data_bytes : Bytes)
    → capture disk stream data_bytes s ≡ some t
    → Keeps s t
unfolding capture
capture-Keeps s t disk stream data_bytes e = ground arith

receive-Keeps :
    (s t : Session) (item : Input) → s.in_flight ≡ 0 → receive s ≡ some (item, t) → Keeps s t
unfolding receive
receive-Keeps s t item free e = ground arith

terminate-Keeps :
    (s : Session) (now : Time) (grace : ℕ) (reason : _) → Keeps s (terminate now grace reason s)
unfolding terminate
terminate-Keeps s now grace reason = ground arith

-- Every step keeps the sum of the permits, however the input task ends: what was queued or being
-- written gives its permits back.
pub Step-permits : {s t : Session} {p q : Phase} → Step s p q t → Keeps s t
unfolding finish launch root_exit written end_input
Step-permits {s} (terminates now grace reason) = terminate-Keeps s now grace reason
Step-permits {s} {t} (writes digest input_id data_bytes receipt e) =
    write-Keeps s t digest input_id data_bytes receipt e
Step-permits {s} {t} (closes state e) = close_input-Keeps s t state e
Step-permits (interrupts receipts) = (refl, refl)
Step-permits (resizes rows cols terminal) = (refl, refl)
Step-permits {s} {t} (types_interrupt terminal e) = enqueue-Keeps s t (3 ∷ []) e
Step-permits (spawn_fails digest flushed now message) = (refl, refl)
Step-permits (cancelled digest flushed now) = (refl, refl)
Step-permits (launches now writer) = (refl, refl)
Step-permits {s} {t} (captures disk stream data_bytes e) =
    capture-Keeps s t disk stream data_bytes e
Step-permits {s} {t} (captures_late disk stream data_bytes e) =
    capture-Keeps s t disk stream data_bytes e
Step-permits {s} {t} (receives item free e) = receive-Keeps s t item free e
Step-permits writes_out = ground arith
Step-permits (ends_input failed) = ground arith
Step-permits exits = ground arith
Step-permits drain_fails = (refl, refl)
Step-permits (finishes digest flushed now exit failure stopping) = (refl, refl)
