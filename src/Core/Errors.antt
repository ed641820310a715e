-- ===== src/Core/Errors.antt =====
-- packages/process-execution-core/src/error.rs: error codes, errors and fallible results.
use execution_provider.Prelude.{
  String, ◌≡◌, refl, ◌⊎◌, inl, inr, Option, none, some, Bool, true, false,
}

pub data ErrorCode : Type 0 where
  not_found invalid_argument invalid_state generation_mismatch idempotency_conflict : ErrorCode
  precondition_failed stdin_closed unsupported_operation resource_limit unavailable io : ErrorCode

pub record Error : Type 0 where
  pub code : ErrorCode
  pub message : String

abbrev pub error : ErrorCode → String → Error
error code message = record { code = code; message = message }

abbrev pub invalid : String → Error
invalid message = error ErrorCode.invalid_argument message

pub data Result {ℓ} (A : Type ℓ) : Type ℓ where
  ok : A → Result A
  err : Error → Result A

infixl 5 ◌>>=◌ ◌>>◌
abbrev pub ◌>>=◌ {ℓ κ} : {V : Type ℓ} {W : Type κ} → Result V → (V → Result W) → Result W
err e >>= next = err e
ok value >>= next = next value

abbrev pub ◌>>◌ {ℓ} : {W : Type ℓ} → Result (Unit {0}) → Result W → Result W
err e >> rest = err e
ok done >> rest = rest

-- `if c { return Err(e) }`
abbrev pub fail_if : Bool → Error → Result (Unit {0})
fail_if true e = err e
fail_if false e = ok tt

abbrev pub ok_or {ℓ} : {A : Type ℓ} → Option A → Error → Result A
ok_or none e = err e
ok_or (some a) e = ok a

pub Result-cases {ℓ} :
    {A : Type ℓ} (r : Result A) → ((a : A) × (r ≡ ok a)) ⊎ ((e : Error) × (r ≡ err e))
Result-cases (ok a) = inl (a, refl)
Result-cases (err e) = inr (e, refl)
