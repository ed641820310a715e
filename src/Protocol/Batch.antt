-- ===== src/Protocol/Batch.antt =====
-- packages/process-execution-protocol/src/batch.rs: validation and dispatch of single operations and
-- batches. JSON values, and what the runtime answers to an operation, are parameters; a runtime's
-- state is threaded through its operations.
pub mod Validation
pub mod Dispatch
pub mod Reach
mod Tests
use Prim.Native.String.{len}
use execution_provider.Prelude.{
  ℕ, String, Bool, true, false, ◌&&◌, ◌||◌, not, Option, none, some, List, [], ◌∷◌, ltb, leb, eqb,
  if◌then◌else◌, length, is_empty, any, all, ◌==◌, string_eq,
}
use execution_provider.Core.Errors.{
  Error, ErrorCode, error, invalid, Result, ok, err, ◌>>=◌, ◌>>◌, fail_if,
}
use execution_provider.Core.Types.{Uuid}
use execution_provider.Protocol.Limits.{version, max_frame_bytes}
use execution_provider.Protocol.Operations.{Operation, is_shutdown, is_terminate_run}

abbrev pub max_batch_operations : ℕ
max_batch_operations = 32

pub data BatchMode : Type 0 where
  sequential parallel : BatchMode

pub record BatchOperation : Type 0 where
  pub request_id : String
  pub operation : Operation

pub record Batch : Type 0 where
  pub mode : BatchMode
  pub accepted_error_codes : List ErrorCode
  pub operations : List BatchOperation

pub data Payload : Type 0 where
  single : Operation → Payload
  batch : Batch → Payload

pub record Request : Type 0 where
  pub protocol_version : ℕ
  pub request_id : String
  pub expected_generation_id : Option Uuid
  pub payload : Payload

abbrev requests_shutdown_payload : Payload → Bool
requests_shutdown_payload (Payload.single operation) = is_shutdown operation
requests_shutdown_payload (Payload.batch b) = false

abbrev pub requests_shutdown : Request → Bool
requests_shutdown r = requests_shutdown_payload r.payload

-- `validate_id`
unfoldable pub validate_id : String → Result (Unit {0})
validate_id id =
    fail_if (eqb (len id) 0 || ltb 256 (len id)) (invalid "request_id must contain 1 to 256 bytes")

-- The loop of `validate` over a batch, with the identifiers seen so far.
validate_items : List String → List BatchOperation → Result (Unit {0})
unfolding validate_id
validate_items ids [] = ok tt
validate_items ids (item ∷ rest) =
    let later = validate_items (item.request_id ∷ ids) rest in
    do
      validate_id item.request_id
      fail_if (any (λ id. id == item.request_id) ids) (invalid "batch request IDs must be unique")
      fail_if (is_shutdown item.operation) (invalid "runtime.shutdown cannot be batched")
      fail_if (is_terminate_run item.operation)
          (invalid "execution.terminate_run cannot be batched")
      later

validate_payload : Bool → Payload → Result (Unit {0})
unfolding validate_items
validate_payload allow_shutdown (Payload.single operation) =
    fail_if (is_shutdown operation && not allow_shutdown)
      (invalid "runtime.shutdown is a local administration operation")
validate_payload allow_shutdown (Payload.batch b) = do
  fail_if (is_empty b.operations || ltb max_batch_operations (length b.operations))
      (invalid "batches require 1 to 32 operations")
  validate_items [] b.operations

abbrev expects_other : Option Uuid → Uuid → Bool
expects_other none generation = false
expects_other (some id) generation = not (eqb id generation)

-- `Dispatcher::validate`, for a dispatcher's `allow_shutdown` and its runtime's generation. The
-- version's number in the message is left out.
unfoldable pub validate : Bool → Uuid → Request → Result (Unit {0})
unfolding validate_id validate_payload
validate allow_shutdown generation request = do
  fail_if (not (eqb request.protocol_version version)) (invalid "unsupported protocol version")
  validate_id request.request_id
  fail_if (expects_other request.expected_generation_id generation)
      (error ErrorCode.generation_mismatch "supervisor generation changed")
  validate_payload allow_shutdown request.payload

abbrev code_number : ErrorCode → ℕ
code_number ErrorCode.not_found = 0
code_number ErrorCode.invalid_argument = 1
code_number ErrorCode.invalid_state = 2
code_number ErrorCode.generation_mismatch = 3
code_number ErrorCode.idempotency_conflict = 4
code_number ErrorCode.precondition_failed = 5
code_number ErrorCode.stdin_closed = 6
code_number ErrorCode.unsupported_operation = 7
code_number ErrorCode.resource_limit = 8
code_number ErrorCode.unavailable = 9
code_number ErrorCode.io = 10

-- `==` on error codes.
abbrev pub same_code : ErrorCode → ErrorCode → Bool
same_code a b = eqb (code_number a) (code_number b)

pub data OperationOutcome (V : Type 0) : Type 0 where
  done : V → OperationOutcome V
  failed : Error → OperationOutcome V
  skipped : String → OperationOutcome V

pub record OperationResponse (V : Type 0) : Type 0 where
  pub request_id : String
  pub outcome : OperationOutcome V

pub data Outcome (V : Type 0) : Type 0 where
  done : V → Outcome V
  failed : Error → Outcome V

pub record Response (V : Type 0) : Type 0 where
  pub protocol_version : ℕ
  pub request_id : Option String
  pub generation_id : Uuid
  pub outcome : Outcome V

abbrev bounded_id : Option String → Option String
bounded_id none = none
bounded_id (some id) = if leb (len id) 256 then some id else none

abbrev outcome_of : {V : Type 0} → Result V → Outcome V
outcome_of (ok value) = Outcome.done value
outcome_of (err e) = Outcome.failed e

-- `Response::new`
unfoldable pub new_response : {V : Type 0} → Option String → Uuid → Result V → Response V
new_response request_id generation_id result = record {
  protocol_version = version;
  request_id = bounded_id request_id;
  generation_id = generation_id;
  outcome = outcome_of result;
}

-- JSON values, of which the dispatcher reads the text of a field and builds a batch's result; and the
-- runtime: what it answers to an operation, and to several at once. `buffered` yields the answers in
-- the order of the operations.
module _ {V S : Type 0} (status : V → Option String)
    (batch_value : Bool → List (OperationResponse V) → V) (operation : Operation → S → Result V × S)
    (concurrently : List BatchOperation → S → List (OperationResponse V) × S) where
  abbrev pub is_failure_status : Option String → Bool
  is_failure_status none = false
  is_failure_status (some text) = text == "rejected" || text == "partial"

  abbrev pub outcome_succeeded : List ErrorCode → OperationOutcome V → Bool
  outcome_succeeded accepted (OperationOutcome.done result) =
      not (is_failure_status (status result))
  outcome_succeeded accepted (OperationOutcome.failed e) =
      any (λ code. same_code code e.code) accepted
  outcome_succeeded accepted (OperationOutcome.skipped reason) = false

  abbrev item_outcome : Result V → OperationOutcome V
  item_outcome (ok result) = OperationOutcome.done result
  item_outcome (err e) = OperationOutcome.failed e

  -- `Dispatcher::item`
  unfoldable pub item : BatchOperation → S → OperationResponse V × S
  item i s =
      let (result, s') = operation i.operation s in
      (record { request_id = i.request_id; outcome = item_outcome result }, s')

  abbrev pub skip : BatchOperation → OperationResponse V
  skip i = record {
    request_id = i.request_id;
    outcome = OperationOutcome.skipped "a previous operation failed";
  }

  -- The loop of the sequential mode, with its flag `failed`, here `stopped`.
  unfoldable pub run_sequential :
      List ErrorCode → Bool → List BatchOperation → S → List (OperationResponse V) × S
  unfolding item
  run_sequential accepted stopped [] s = ([], s)
  run_sequential accepted stopped (i ∷ rest) s =
      let (response, s') = if stopped then (skip i, s) else item i s in
      let (responses, s'') =
        run_sequential accepted (stopped || not (outcome_succeeded accepted response.outcome)) rest
          s' in
      (response ∷ responses, s'')

  run_mode : BatchMode → List ErrorCode → List BatchOperation → S → List (OperationResponse V) × S
  unfolding run_sequential
  run_mode BatchMode.sequential accepted items s = run_sequential accepted false items s
  run_mode BatchMode.parallel accepted items s = concurrently items s

  -- `Dispatcher::batch`
  unfoldable pub run_batch : Batch → S → Result V × S
  unfolding run_mode
  run_batch b s =
      let (results, s') = run_mode b.mode b.accepted_error_codes b.operations s in
      let succeeded = all (λ r. outcome_succeeded b.accepted_error_codes r.outcome) results in
      (ok (batch_value succeeded results), s')

  run_payload : Payload → S → Result V × S
  unfolding run_batch
  run_payload (Payload.single op) s = operation op s
  run_payload (Payload.batch b) s = run_batch b s

  abbrev run_valid : Result (Unit {0}) → Payload → S → Result V × S
  unfolding run_payload
  run_valid (ok valid) payload s = run_payload payload s
  run_valid (err e) payload s = (err e, s)

  -- `Dispatcher::dispatch`
  unfoldable pub dispatch : Bool → Uuid → Request → S → Response V × S
  unfolding validate run_payload
  dispatch allow_shutdown generation request s =
      let (result, s') = run_valid (validate allow_shutdown generation request) request.payload s in
      (new_response (some request.request_id) generation result, s')
