-- ===== src/Protocol/Batch/Validation.antt =====
-- Which requests a dispatcher accepts.
use Prim.Native.String.{len}
use text.Mathlib.TextEquality.{eq_iff}
use execution_provider.Prelude.{
  ◌≤◌, ◌≡◌, ◌≢◌, ◌↔◌, ◌⊎◌, refl, String, Bool, true, false, Option, none, some, List, [], ◌∷◌,
  arith, length, any, ◌==◌, string_eq,
}
use execution_provider.Core.Errors.{ok}
use execution_provider.Core.Types.{Uuid}
use execution_provider.Protocol.Limits.{version}
use execution_provider.Protocol.Operations.{is_shutdown, is_terminate_run}
use execution_provider.Protocol.Batch.{
  BatchOperation, Payload, Request, validate, validate_id, validate_items, validate_payload,
  max_batch_operations,
}

abbrev pub IsId : String → Type 0
IsId id = (1 ≤ len id) × (len id ≤ 256)

-- An item that may stand in a batch.
abbrev pub IsItem : BatchOperation → Type 0
IsItem i =
    IsId i.request_id × (is_shutdown i.operation ≡ false) × (is_terminate_run i.operation ≡ false)

abbrev pub AllItems : List BatchOperation → Type 0
AllItems [] = Unit
AllItems (i ∷ rest) = IsItem i × AllItems rest

-- No item carries the identifier.
abbrev pub Fresh : String → List BatchOperation → Type 0
Fresh id [] = Unit
Fresh id (i ∷ rest) = (id ≢ i.request_id) × Fresh id rest

-- No two items carry the same identifier.
abbrev pub Unique : List BatchOperation → Type 0
Unique [] = Unit
Unique (i ∷ rest) = Fresh i.request_id rest × Unique rest

abbrev AllFresh : List String → List BatchOperation → Type 0
AllFresh [] items = Unit
AllFresh (id ∷ ids) items = Fresh id items × AllFresh ids items

AllFresh-cons :
    (ids : List String) (i : BatchOperation) (rest : List BatchOperation)
    → AllFresh ids (i ∷ rest) ↔ ((any (λ id. id == i.request_id) ids ≡ false) × AllFresh ids rest)
AllFresh-cons [] i rest = ground arith
AllFresh-cons (id ∷ ids) i rest = ground (arith, eq_iff id i.request_id, AllFresh-cons ids i rest)

validate_id_iff : (id : String) → (validate_id id ≡ ok tt) ↔ IsId id
unfolding validate_id
validate_id_iff id = ground arith

AllFresh-nil : (ids : List String) → AllFresh ids []
AllFresh-nil [] = tt
AllFresh-nil (id ∷ ids) = (tt, AllFresh-nil ids)

validate_items_iff :
    (ids : List String) (items : List BatchOperation)
    → (validate_items ids items ≡ ok tt) ↔ (AllItems items × Unique items × AllFresh ids items)
unfolding validate_items
validate_items_iff ids [] = (λ _. (tt, tt, AllFresh-nil ids), λ _. refl)
validate_items_iff ids (i ∷ rest) =
    ground (arith, AllFresh-cons ids i rest, validate_items_iff (i.request_id ∷ ids) rest)

abbrev pub IsExpected : Option Uuid → Uuid → Type 0
IsExpected none generation = Unit
IsExpected (some id) generation = id ≡ generation

abbrev pub IsPayload : Bool → Payload → Type 0
IsPayload allow_shutdown (Payload.single operation) =
    (is_shutdown operation ≡ false) ⊎ (allow_shutdown ≡ true)
IsPayload allow_shutdown (Payload.batch b) =
    (1 ≤ length b.operations)
    × (length b.operations ≤ max_batch_operations)
    × AllItems b.operations
    × Unique b.operations

validate_payload_iff :
    (allow_shutdown : Bool) (payload : Payload)
    → (validate_payload allow_shutdown payload ≡ ok tt) ↔ IsPayload allow_shutdown payload
unfolding validate_payload
validate_payload_iff allow_shutdown (Payload.single operation) = ground arith
validate_payload_iff allow_shutdown (Payload.batch b) =
    ground (arith, validate_items_iff [] b.operations)

-- A request is accepted exactly when it speaks this protocol version, carries an identifier of 1 to
-- 256 bytes, expects no other runtime generation, and holds either a single operation (a shutdown only
-- where that is allowed) or 1 to 32 operations with distinct identifiers, none of them a shutdown or
-- the termination of a run.
pub validate_iff :
    (allow_shutdown : Bool) (generation : Uuid) (request : Request)
    → (validate allow_shutdown generation request ≡ ok tt) ↔ (
        (request.protocol_version ≡ version)
        × IsId request.request_id
        × IsExpected request.expected_generation_id generation
        × IsPayload allow_shutdown request.payload)
unfolding validate
validate_iff allow_shutdown generation request =
    ground (
      arith,
      validate_id_iff request.request_id,
      validate_payload_iff allow_shutdown request.payload,
    )
