-- ===== src/Core/Runtime/Control.antt =====
-- packages/process-execution-core/src/runtime.rs: interrupting, resizing and terminating one execution,
-- the limits of a request, and the shutdown of the runtime. What the operating system answers to an
-- interrupt or a resize is an argument; `none` is the panic of `data.control.as_ref().unwrap()`.
pub mod Once
pub mod Closing
use execution_provider.Prelude.{
  ℕ, ◌+◌, ◌≤◌, ◌≡◌, ◌≢◌, ◌↔◌, refl, String, Bool, true, false, ◌&&◌, ◌||◌, not, Option, none, some,
  List, [], ◌∷◌, arith, length, string_eq, nat_eq, eqb, ltb, leb, if◌then◌else◌, map, ◌==◌,
  unwrap_or, is_some, ◌⊎◌, inl, inr, Option-cases, Bool-cases, ap, ◌∙◌, sym, subst,
}
use text.Mathlib.TextEquality.{eq_iff}
use execution_provider.Prelude.Dict.{Dict, get, insert, All, get-insert_self, length-insert_new}
use execution_provider.Core.Errors.{
  Error, ErrorCode, error, invalid, Result, ok, err, ◌>>=◌, ◌>>◌, fail_if,
}
use execution_provider.Core.Config.{from_millis, Limits}
use execution_provider.Core.Types.{Uuid, Time, Execution, IoMode, is_finished, is_running}
use execution_provider.Core.Session.{
  Session, StopReason, terminate, enqueue, not_running, is_pty, revised,
}
use execution_provider.Core.Runtime.{
  Entry, Registry, discard_all, discard, cleanup, admit_start, admitted, expired, retain_pending,
}
use execution_provider.Core.Types.{StartRequest}

-- `validate_size`
unfoldable pub validate_size : ℕ → ℕ → Result (Unit {0})
validate_size rows cols =
    fail_if (eqb rows 0 || (eqb cols 0 || (ltb 32767 rows || ltb 32767 cols)))
      (invalid "terminal dimensions must be between 1 and 32767")

-- `wait_limit`
unfoldable pub wait_limit : Limits → ℕ → Result (Unit {0})
wait_limit limits wait_ms =
    fail_if (ltb limits.max_wait (from_millis wait_ms)) (invalid "wait exceeds configured maximum")

-- `output_limit`
unfoldable pub output_limit : Limits → Option ℕ → Result ℕ
output_limit limits requested =
    let limit = unwrap_or requested limits.max_output_bytes_per_response in
    if eqb limit 0 || ltb limits.max_output_bytes_per_response limit
    then err (invalid "output limit must be positive and within the configured maximum")
    else ok limit

-- The answer of an interrupt, with the session after it: on Windows a terminal is sent the byte 3.
abbrev signalled : Bool → Result (Unit {0}) → Session → Result (Unit {0}) × Session
unfolding enqueue
signalled windows answer s =
    if windows && is_pty s.execution.io
    then (elim (enqueue (3 ∷ []) s) [ ok s' ↦ (ok tt, s') | err e ↦ (err e, s) ])
    else (answer, s)

abbrev with_execution : Result (Unit {0}) → Execution → Result Execution
with_execution (ok done) execution = ok execution
with_execution (err e) execution = err e

-- The call of the process's control, and its receipt.
interrupt_now : Bool → Result (Unit {0}) → String → Session → Result Execution × Session
unfolding enqueue
interrupt_now windows answer operation_id s =
    let (sent, s') = signalled windows answer s in
    let result = with_execution sent s'.execution in
    (result, record s' { interrupt_receipts = insert operation_id result s'.interrupt_receipts })

abbrev interrupt_limit : Error
interrupt_limit = error ErrorCode.resource_limit "interrupt receipt limit reached"

-- `interrupt_execution` without a receipt for the operation.
abbrev interrupt_new :
    Bool → Result (Unit {0}) → String → Session → Option (Result Execution × Session)
unfolding interrupt_now
interrupt_new windows answer operation_id s =
    if is_finished s.execution.state
    then some (ok s.execution, s)
    else if not (is_running s.execution.state)
    then some (err not_running, s)
    else if leb s.limits.max_interrupt_receipts (length s.interrupt_receipts)
    then some (err interrupt_limit, s)
    else if not (windows && is_pty s.execution.io) && not s.control
    then none
    else some (interrupt_now windows answer operation_id s)

-- `interrupt_execution` on its session.
unfoldable pub interrupt :
    Bool → Result (Unit {0}) → String → Session → Option (Result Execution × Session)
unfolding interrupt_now
interrupt windows answer operation_id s =
    if operation_id == ""
    then some (err (invalid "operation_id is empty"), s)
    else elim (get operation_id s.interrupt_receipts) [
      | some result ↦ some (result, s)
      | none ↦ interrupt_new windows answer operation_id s
    ]

abbrev resized : ℕ → ℕ → Session → Session
resized rows cols s = record s {
  execution = record s.execution { io = IoMode.pty rows cols };
  journal = revised s.journal;
}

-- `resize_terminal` on its session, past the check of the size.
unfoldable pub resize : Result (Unit {0}) → ℕ → ℕ → Session → Option (Result Execution × Session)
resize answer rows cols s =
    if not (is_running s.execution.state)
    then some (err not_running, s)
    else if not s.control
    then none
    else some (elim answer [
      | err e ↦ (err e, s)
      | ok done ↦ (ok (resized rows cols s).execution, resized rows cols s)
    ])

-- `terminate_execution` on its session.
unfoldable pub terminate_execution : Time → Limits → Option ℕ → Session → Result Execution × Session
unfolding terminate
terminate_execution now limits grace s =
    let period = unwrap_or grace limits.termination_grace in
    let s' = terminate now period StopReason.explicit_termination s in
    if ltb limits.max_termination_grace period
    then (err (invalid "termination grace exceeds maximum"), s)
    else (ok s'.execution, s')

abbrev stop_entry : Time → Limits → Entry → Entry
unfolding terminate
stop_entry now limits entry = record entry {
  session = terminate now limits.termination_grace StopReason.runtime_shutdown entry.session;
}

-- `shutdown`, without the wait for the sessions to finish.
unfoldable pub shutdown : Time → Limits → Registry → Registry
unfolding terminate
shutdown now limits r = record r {
  shutting_down = true;
  entries = map (λ p. (p.0, stop_entry now limits p.1)) r.entries;
}
