-- ===== src/Protocol/Batch/Reach.antt =====
-- Which operations a request can make the runtime run.
use execution_provider.Prelude.{
  ◌≡◌, refl, ap, inl, inr, String, Bool, true, false, Option, List, [], ◌∷◌, not, arith,
}
use execution_provider.Core.Errors.{ErrorCode, Result, Result-cases}
use execution_provider.Core.Types.{Uuid}
use execution_provider.Protocol.Operations.{Operation, is_shutdown}
use execution_provider.Protocol.Batch.{
  BatchOperation, OperationResponse, Request, Payload, BatchMode, validate, item, skip,
  outcome_succeeded, run_sequential, run_mode, run_batch, run_payload, dispatch,
}
use execution_provider.Protocol.Batch.Validation.{AllItems, validate_iff, IsPayload}

-- Two runtimes, which answer alike all operations but a shutdown.
module _ {V S : Type 0} (status : V → Option String)
    (batch_value : Bool → List (OperationResponse V) → V)
    (operation operation' : Operation → S → Result V × S)
    (concurrently concurrently' : List BatchOperation → S → List (OperationResponse V) × S)
    (alike : (o : Operation) (s : S) → is_shutdown o ≡ false → operation o s ≡ operation' o s)
    (alike_concurrently : (items : List BatchOperation) (s : S)
      → AllItems items
      → concurrently items s ≡ concurrently' items s) where
  run_sequential_alike :
      (accepted : List ErrorCode) (stopped : Bool) (items : List BatchOperation) (s : S)
      → AllItems items
      → run_sequential status batch_value operation concurrently accepted stopped items s
        ≡ run_sequential status batch_value operation' concurrently' accepted stopped items s
  unfolding run_sequential item
  run_sequential_alike accepted stopped [] s h = refl
  run_sequential_alike accepted true (i ∷ rest) s (h, hs) =
      ap (λ r. (skip status batch_value operation concurrently i ∷ r.0, r.1))
        (run_sequential_alike accepted true rest s hs)
  run_sequential_alike accepted false (i ∷ rest) s (h, hs) =
      let (r, s') = item status batch_value operation' concurrently' i s in
      rw (alike i.operation s h.1) (
        ap (λ p. (r ∷ p.0, p.1))
          (run_sequential_alike accepted
            (not (outcome_succeeded status batch_value operation' concurrently' accepted r.outcome))
            rest s' hs))

  run_mode_alike :
      (mode : BatchMode) (accepted : List ErrorCode) (items : List BatchOperation) (s : S)
      → AllItems items
      → run_mode status batch_value operation concurrently mode accepted items s
        ≡ run_mode status batch_value operation' concurrently' mode accepted items s
  unfolding run_mode
  run_mode_alike BatchMode.sequential accepted items s h =
      run_sequential_alike accepted false items s h
  run_mode_alike BatchMode.parallel accepted items s h = alike_concurrently items s h

  run_payload_alike :
      (payload : Payload) (s : S)
      → IsPayload false payload
      → run_payload status batch_value operation concurrently payload s
        ≡ run_payload status batch_value operation' concurrently' payload s
  unfolding run_payload run_batch
  run_payload_alike (Payload.single o) s h = elim h [
    | inl e ↦ alike o s e
    | inr e ↦ absurd (ground arith)
  ]
  run_payload_alike (Payload.batch b) s h =
      rw (run_mode_alike b.mode b.accepted_error_codes b.operations s h.2) refl

  -- A dispatcher that does not allow a shutdown never runs one, whatever the request: runtimes that
  -- answer all other operations alike, alone and in a batch, end in the same state with the same
  -- response.
  pub dispatch_alike :
      (generation : Uuid) (request : Request) (s : S)
      → dispatch status batch_value operation concurrently false generation request s
        ≡ dispatch status batch_value operation' concurrently' false generation request s
  unfolding dispatch
  dispatch_alike generation request s = elim (Result-cases (validate false generation request)) [
    | inl (valid, e) ↦
        rw (e, run_payload_alike request.payload s ((validate_iff false generation request).0 e).3)
          refl
    | inr (e, h) ↦ rw h refl
  ]
