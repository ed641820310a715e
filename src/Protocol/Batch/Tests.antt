-- ===== src/Protocol/Batch/Tests.antt =====
-- A batch on a small runtime, and the theorems applied there.
use execution_provider.Prelude.{
  ℕ, ◌≡◌, ◌↔◌, refl, String, Bool, false, Option, none, some, List, [], ◌∷◌, string_eq, arith, ◌+◌,
  if◌then◌else◌,
}
use execution_provider.Core.Errors.{ErrorCode, error, Result, ok, err}
use execution_provider.Protocol.Operations.{Operation, is_shutdown}
use execution_provider.Protocol.Limits.{version}
use execution_provider.Protocol.Batch.{
  BatchOperation, BatchMode, Request, Payload, OperationResponse, OperationOutcome, validate,
  run_sequential, dispatch,
}
use execution_provider.Protocol.Batch.Validation.{IsId, IsExpected, IsPayload, validate_iff}
use execution_provider.Protocol.Batch.Dispatch.{RunsPrefix, sequential-RunsPrefix}
use execution_provider.Protocol.Batch.Reach.{dispatch_alike}

-- A runtime that counts what it runs: reading a file fails, and a shutdown answers 9.
abbrev answer : Operation → ℕ → Result ℕ × ℕ
answer (Operation.read_file params) n = (err (error ErrorCode.not_found "no file"), n + 1)
answer Operation.shutdown n = (ok 9, 0)
answer o n = (ok n, n + 1)

-- The same runtime without a shutdown.
abbrev answer' : Operation → ℕ → Result ℕ × ℕ
answer' Operation.shutdown n = (err (error ErrorCode.unavailable "off"), n)
answer' o n = answer o n

abbrev together : List BatchOperation → ℕ → List (OperationResponse ℕ) × ℕ
together items n = ([], n)

abbrev no_status : ℕ → Option String
no_status n = none

abbrev batch_value : Bool → List (OperationResponse ℕ) → ℕ
batch_value succeeded responses = if succeeded then 1 else 0

abbrev read_item : BatchOperation
read_item = record {
  request_id = "two";
  operation = Operation.read_file (record { cwd = none; path = "/f"; max_bytes = none });
}

abbrev info_item : String → BatchOperation
info_item id = record { request_id = id; operation = Operation.info }

abbrev items : List BatchOperation
items = info_item "one" ∷ read_item ∷ info_item "three" ∷ []

abbrev request : Request
request = record {
  protocol_version = version;
  request_id = "r";
  expected_generation_id = some 4;
  payload =
      Payload.batch
        (record { mode = BatchMode.sequential; accepted_error_codes = []; operations = items });
}

stops_at_failure : run_sequential no_status batch_value answer together [] false items 0 ≡ (
  (record { request_id = "one"; outcome = OperationOutcome.done 0 }
      ∷ record {
        request_id = "two";
        outcome = OperationOutcome.failed (error ErrorCode.not_found "no file");
      }
      ∷ record {
        request_id = "three";
        outcome = OperationOutcome.skipped "a previous operation failed";
      }
      ∷ []),
  2,
)
unfolding run_sequential
stops_at_failure = refl

goes_on_after_accepted :
    (run_sequential no_status batch_value answer together
      (ErrorCode.not_found ∷ [])
      false
      items
      0).1
    ≡ 3
unfolding run_sequential
goes_on_after_accepted = refl

request_passes : validate false 4 request ≡ ok tt
unfolding validate
request_passes = refl

validate_iff_example :
    (validate false 4 request ≡ ok tt)
    ↔ ((version ≡ version) × IsId "r" × IsExpected (some 4) 4 × IsPayload false request.payload)
validate_iff_example = validate_iff false 4 request

sequential-RunsPrefix_example : RunsPrefix no_status batch_value answer together [] items 0
sequential-RunsPrefix_example =
    sequential-RunsPrefix no_status batch_value answer together [] items 0

answers_alike : (o : Operation) (n : ℕ) → is_shutdown o ≡ false → answer o n ≡ answer' o n
answers_alike Operation.shutdown n h = absurd (ground arith)
answers_alike o n h = ground arith

dispatch_alike_example :
    dispatch no_status batch_value answer together false 4 request 0
    ≡ dispatch no_status batch_value answer' together false 4 request 0
dispatch_alike_example =
    dispatch_alike no_status batch_value answer answer' together together answers_alike
      (λ items n h. refl) 4 request 0
