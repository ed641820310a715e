-- ===== src/Protocol/Batch/Dispatch.antt =====
-- What a batch does: which operations reach the runtime, and what is reported of them.
use execution_provider.Prelude.{
  ◌≡◌, refl, ap, ◌⊎◌, inl, inr, String, Bool, true, false, Option, List, [], ◌∷◌, ◌++◌, map, all,
  not, Bool-cases,
}
use execution_provider.Core.Errors.{ErrorCode, Result}
use execution_provider.Protocol.Operations.{Operation}
use execution_provider.Protocol.Batch
use execution_provider.Protocol.Batch.{
  BatchOperation, OperationResponse, Request, Response, Outcome, Payload, BatchMode, Batch,
  validate, dispatch, run_batch,
}

module _ {V S : Type 0} (status : V → Option String)
    (batch_value : Bool → List (OperationResponse V) → V) (operation : Operation → S → Result V × S)
    (concurrently : List BatchOperation → S → List (OperationResponse V) × S) where
  abbrev succeeds : List ErrorCode → OperationResponse V → Bool
  succeeds accepted r =
      Batch.outcome_succeeded status batch_value operation concurrently accepted r.outcome

  -- Every item reaches the runtime, in order: the description of a batch in which nothing fails.
  abbrev pub execute : List BatchOperation → S → List (OperationResponse V) × S
  execute [] s = ([], s)
  execute (i ∷ rest) s =
      let (response, s') = Batch.item status batch_value operation concurrently i s in
      let (responses, s'') = execute rest s' in (response ∷ responses, s'')

  -- All responses but the last one are successes.
  abbrev pub SucceedsBeforeLast : List ErrorCode → List (OperationResponse V) → Type 0
  SucceedsBeforeLast accepted [] = Unit
  SucceedsBeforeLast accepted (r ∷ []) = Unit
  SucceedsBeforeLast accepted (r ∷ r' ∷ rest) =
      (succeeds accepted r ≡ true) × SucceedsBeforeLast accepted (r' ∷ rest)

  abbrev skips : List BatchOperation → List (OperationResponse V)
  skips items = map (Batch.skip status batch_value operation concurrently) items

  pub sequential : List ErrorCode → Bool → List BatchOperation → S → List (OperationResponse V) × S
  unfolding Batch.run_sequential
  sequential accepted stopped items s =
      Batch.run_sequential status batch_value operation concurrently accepted stopped items s

  -- How a sequential batch runs: the items up to the first failure reach the runtime, in order; those
  -- behind it are skipped.
  pub record RunsPrefix (accepted : List ErrorCode) (items : List BatchOperation) (s : S)
      : Type 0 where
    pub attempted : List BatchOperation
    pub rest : List BatchOperation
    pub items_eq : items ≡ attempted ++ rest
    pub responses_eq : (sequential accepted false items s).0 ≡ (execute attempted s).0 ++ skips rest
    pub state_eq : (sequential accepted false items s).1 ≡ (execute attempted s).1
    pub before : SucceedsBeforeLast accepted (execute attempted s).0
    pub after : (rest ≡ []) ⊎ (all (succeeds accepted) (execute attempted s).0 ≡ false)

  stopped_lem :
      (accepted : List ErrorCode) (items : List BatchOperation) (s : S)
      → sequential accepted true items s ≡ (skips items, s)
  unfolding sequential Batch.run_sequential
  stopped_lem accepted [] s = refl
  stopped_lem accepted (i ∷ rest) s =
      ap (λ r. (Batch.skip status batch_value operation concurrently i ∷ r.0, r.1))
        (stopped_lem accepted rest s)

  SucceedsBeforeLast-cons :
      (accepted : List ErrorCode) (r : OperationResponse V) (rs : List (OperationResponse V))
      → succeeds accepted r ≡ true
      → SucceedsBeforeLast accepted rs
      → SucceedsBeforeLast accepted (r ∷ rs)
  SucceedsBeforeLast-cons accepted r [] e h = tt
  SucceedsBeforeLast-cons accepted r (r' ∷ rs) e h = (e, h)

  -- A sequential batch runs the items of a prefix, in order; all of the prefix but its last one succeed,
  -- and the items behind it, if there are any, are behind a failure and answered as skipped without
  -- reaching the runtime.
  pub sequential-RunsPrefix :
      (accepted : List ErrorCode) (items : List BatchOperation) (s : S)
      → RunsPrefix accepted items s
  unfolding sequential Batch.run_sequential
  sequential-RunsPrefix accepted [] s = record {
    attempted = [];
    rest = [];
    items_eq = refl;
    responses_eq = refl;
    state_eq = refl;
    before = tt;
    after = inl refl;
  }
  sequential-RunsPrefix accepted (i ∷ rest) s =
      let (r, s') = Batch.item status batch_value operation concurrently i s in
      elim (Bool-cases (succeeds accepted r)) [
        | inl e ↦
            let p = sequential-RunsPrefix accepted rest s' in
            record {
              attempted = i ∷ p.attempted;
              rest = p.rest;
              items_eq = ap (λ is. i ∷ is) p.items_eq;
              responses_eq = rw e (ap (λ rs. r ∷ rs) p.responses_eq);
              state_eq = rw e p.state_eq;
              before = SucceedsBeforeLast-cons accepted r (execute p.attempted s').0 e p.before;
              after = rw e p.after;
            }
        | inr e ↦ record {
          attempted = i ∷ [];
          rest = rest;
          items_eq = refl;
          responses_eq = rw e (ap (λ p. r ∷ p.0) (stopped_lem accepted rest s'));
          state_eq = rw e (ap (λ p. p.1) (stopped_lem accepted rest s'));
          before = tt;
          after = inr (rw e refl);
        }
      ]

  -- A sequential batch is answered item by item, in the order of the request.
  pub sequential_ids :
      (accepted : List ErrorCode) (stopped : Bool) (items : List BatchOperation) (s : S)
      → map (λ r. r.request_id) (sequential accepted stopped items s).0
        ≡ map (λ i. i.request_id) items
  unfolding sequential Batch.run_sequential Batch.item
  sequential_ids accepted stopped [] s = refl
  sequential_ids accepted true (i ∷ rest) s =
      ap (λ ids. i.request_id ∷ ids) (sequential_ids accepted true rest s)
  sequential_ids accepted false (i ∷ rest) s =
      let (r, s') = Batch.item status batch_value operation concurrently i s in
      ap (λ ids. i.request_id ∷ ids) (sequential_ids accepted (not (succeeds accepted r)) rest s')
