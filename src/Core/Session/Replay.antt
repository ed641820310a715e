-- ===== src/Core/Session/Replay.antt =====
-- The receipts of written input: a repeated call is answered from its receipt and writes nothing.
use text.Mathlib.TextEquality.{eq_iff}
use execution_provider.Prelude.{
  Option, ℕ, ◌≤◌, ◌≡◌, ◌≢◌, String, true, none, some, [], ◌∷◌, ◌++◌, ◌⊎◌, arith, length, eqb,
  if◌then◌else◌, string_eq,
}
use execution_provider.Prelude.Dict.{get, get-insert, get-insert_self, length-insert_new}
use execution_provider.Core.Errors.{ok, err}
use execution_provider.Core.Types.{Bytes, Time, InputReceipt, OutputStream, StdinState, is_running}
use execution_provider.Core.Session.{
  Session, StopReason, Input, terminate, write, close_input, finish, launch, root_exit, capture,
  receive, written, end_input, enqueue, input_conflict,
}
use execution_provider.Core.Session.Lifecycle.{
  Phase, Step, terminates, writes, closes, spawn_fails, interrupts, resizes, types_interrupt,
  cancelled, launches, captures, captures_late, receives, writes_out, ends_input, exits,
  drain_fails, finishes,
}
use execution_provider.Core.Session.Progress.{Steps, none_yet, then_one}
use execution_provider.Core.Spool.{WriteOutcome}

-- A repeated `input_id` changes nothing: the same bytes get the first receipt again, whatever the
-- state of the execution, and other bytes are refused.
pub write_again :
    (s : Session) (digest : Bytes → ℕ) (input_id : String) (data_bytes : Bytes) (hash : ℕ)
    (receipt : InputReceipt)
    → input_id ≢ ""
    → get input_id s.input_receipts ≡ some (hash, receipt)
    → write digest input_id data_bytes s
      ≡ (if eqb hash (digest data_bytes) then ok (receipt, s) else err input_conflict)
unfolding write
write_again s digest input_id data_bytes hash receipt named here =
    ground (arith, eq_iff input_id "")

-- What an accepted write of a new `input_id` has done.
pub record Accepts (digest : Bytes → ℕ) (input_id : String) (data_bytes : Bytes) (s : Session)
    (receipt : InputReceipt) (t : Session) : Type 0 where
  pub counted : receipt.accepted_bytes ≡ length data_bytes
  pub remembered : get input_id t.input_receipts ≡ some (digest data_bytes, receipt)
  pub bounded : length t.input_receipts ≤ s.limits.max_input_receipts
  -- Only a nonempty write queues anything: its bytes, behind all others, while the process runs and its
  -- input is open.
  pub queued :
      ((data_bytes ≡ []) × (t.queue ≡ s.queue))
      ⊎ ((t.queue ≡ s.queue ++ Input.bytes data_bytes ∷ [])
          × (is_running s.execution.state ≡ true)
          × (s.stdin ≡ StdinState.opened)
          × (length data_bytes ≤ s.input_capacity))

-- A write that is accepted under a new `input_id` queues its bytes once, in order, and leaves the
-- receipt by which a repetition is recognised.
pub write-Accepts :
    (s t : Session) (digest : Bytes → ℕ) (input_id : String) (data_bytes : Bytes)
    (receipt : InputReceipt)
    → get input_id s.input_receipts ≡ none
    → write digest input_id data_bytes s ≡ ok (receipt, t)
    → Accepts digest input_id data_bytes s receipt t
unfolding write
write-Accepts s t digest input_id data_bytes receipt fresh e = ground (
  arith,
  get-insert_self input_id (digest data_bytes, receipt) s.input_receipts,
  length-insert_new input_id (digest data_bytes, receipt) s.input_receipts,
)

-- A receipt of input is there.
abbrev HasReceipt : String → ℕ → InputReceipt → Session → Type 0
HasReceipt id hash receipt s = get id s.input_receipts ≡ some (hash, receipt)

write-HasReceipt :
    (s t : Session) (digest : Bytes → ℕ) (input_id : String) (data_bytes : Bytes)
    (given : InputReceipt) (id : String) (hash : ℕ) (receipt : InputReceipt)
    → write digest input_id data_bytes s ≡ ok (given, t)
    → HasReceipt id hash receipt s
    → HasReceipt id hash receipt t
unfolding write
write-HasReceipt s t digest input_id data_bytes given id hash receipt e here =
    ground (
      arith,
      eq_iff input_id id,
      get-insert input_id id (digest data_bytes, given) s.input_receipts,
    )

close_input-HasReceipt :
    (s t : Session) (state : StdinState) (id : String) (hash : ℕ) (receipt : InputReceipt)
    → close_input s ≡ ok (state, t)
    → HasReceipt id hash receipt s
    → HasReceipt id hash receipt t
unfolding close_input
close_input-HasReceipt s t state id hash receipt e here = ground arith

enqueue-HasReceipt :
    (s t : Session) (data_bytes : Bytes) (id : String) (hash : ℕ) (receipt : InputReceipt)
    → enqueue data_bytes s ≡ ok t
    → HasReceipt id hash receipt s
    → HasReceipt id hash receipt t
unfolding enqueue
enqueue-HasReceipt s t data_bytes id hash receipt e here = ground arith

capture-HasReceipt :
    (s t : Session) (disk : Bytes → WriteOutcome) (stream : OutputStream) (data_bytes : Bytes)
    (id : String) (hash : ℕ) (receipt : InputReceipt)
    → capture disk stream data_bytes s ≡ some t
    → HasReceipt id hash receipt s
    → HasReceipt id hash receipt t
unfolding capture
capture-HasReceipt s t disk stream data_bytes id hash receipt e here = ground arith

receive-HasReceipt :
    (s t : Session) (item : Input) (id : String) (hash : ℕ) (receipt : InputReceipt)
    → receive s ≡ some (item, t)
    → HasReceipt id hash receipt s
    → HasReceipt id hash receipt t
unfolding receive
receive-HasReceipt s t item id hash receipt e here = ground arith

terminate-HasReceipt :
    (s : Session) (now : Time) (grace : ℕ) (reason : StopReason) (id : String) (hash : ℕ)
    (receipt : InputReceipt)
    → HasReceipt id hash receipt s
    → HasReceipt id hash receipt (terminate now grace reason s)
unfolding terminate
terminate-HasReceipt s now grace reason id hash receipt here = ground arith

end_input-HasReceipt :
    (s : Session) (failed : Option String) (id : String) (hash : ℕ) (receipt : InputReceipt)
    → HasReceipt id hash receipt s
    → HasReceipt id hash receipt (end_input failed s)
unfolding end_input
end_input-HasReceipt s failed id hash receipt here = ground arith

-- No step forgets a receipt.
Step-HasReceipt :
    {s t : Session} {p q : Phase} (id : String) (hash : ℕ) (receipt : InputReceipt)
    → Step s p q t
    → HasReceipt id hash receipt s
    → HasReceipt id hash receipt t
unfolding finish launch root_exit written
Step-HasReceipt {s} id hash receipt (terminates now grace reason) here =
    terminate-HasReceipt s now grace reason id hash receipt here
Step-HasReceipt {s} {t} id hash receipt (writes digest input_id data_bytes given e) here =
    write-HasReceipt s t digest input_id data_bytes given id hash receipt e here
Step-HasReceipt {s} {t} id hash receipt (closes state e) here =
    close_input-HasReceipt s t state id hash receipt e here
Step-HasReceipt id hash receipt (interrupts receipts) here = here
Step-HasReceipt id hash receipt (resizes rows cols terminal) here = here
Step-HasReceipt {s} {t} id hash receipt (types_interrupt terminal e) here =
    enqueue-HasReceipt s t (3 ∷ []) id hash receipt e here
Step-HasReceipt id hash receipt (spawn_fails digest flushed now message) here = here
Step-HasReceipt id hash receipt (cancelled digest flushed now) here = here
Step-HasReceipt id hash receipt (launches now writer) here = here
Step-HasReceipt {s} {t} id hash receipt (captures disk stream data_bytes e) here =
    capture-HasReceipt s t disk stream data_bytes id hash receipt e here
Step-HasReceipt {s} {t} id hash receipt (captures_late disk stream data_bytes e) here =
    capture-HasReceipt s t disk stream data_bytes id hash receipt e here
Step-HasReceipt {s} {t} id hash receipt (receives item free e) here =
    receive-HasReceipt s t item id hash receipt e here
Step-HasReceipt id hash receipt writes_out here = here
Step-HasReceipt {s} id hash receipt (ends_input failed) here =
    end_input-HasReceipt s failed id hash receipt here
Step-HasReceipt id hash receipt exits here = here
Step-HasReceipt id hash receipt drain_fails here = here
Step-HasReceipt id hash receipt (finishes digest flushed now exit failure stopping) here = here

Steps-HasReceipt :
    {s : Session} {p : Phase} {t : Session} {q : Phase} (id : String) (hash : ℕ)
    (receipt : InputReceipt)
    → Steps s p q t
    → HasReceipt id hash receipt s
    → HasReceipt id hash receipt t
Steps-HasReceipt id hash receipt none_yet here = here
Steps-HasReceipt id hash receipt (then_one steps step) here =
    Step-HasReceipt id hash receipt step (Steps-HasReceipt id hash receipt steps here)

-- An accepted write under a new `input_id` can be repeated with the same bytes after any steps of the
-- session: it succeeds with the same receipt and changes nothing.
pub write_idempotent :
    {p q : Phase} (s t u : Session) (digest : Bytes → ℕ) (input_id : String) (data_bytes : Bytes)
    (receipt : InputReceipt)
    → get input_id s.input_receipts ≡ none
    → write digest input_id data_bytes s ≡ ok (receipt, t)
    → Steps t p q u
    → write digest input_id data_bytes u ≡ ok (receipt, u)
unfolding write
write_idempotent s t u digest input_id data_bytes receipt fresh e steps =
    let here : HasReceipt input_id (digest data_bytes) receipt t =
      ground (arith, get-insert_self input_id (digest data_bytes, receipt) s.input_receipts) in
    ground (arith, Steps-HasReceipt input_id (digest data_bytes) receipt steps here)
