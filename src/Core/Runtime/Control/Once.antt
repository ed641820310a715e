-- ===== src/Core/Runtime/Control/Once.antt =====
-- The receipts of interrupts.
use execution_provider.Prelude.{ℕ, ◌≤◌, ◌≡◌, String, some, length, string_eq, nat_eq}
use execution_provider.Prelude.Dict.{get}
use execution_provider.Core.Errors.{Result}
use execution_provider.Core.Types.{Execution}
use execution_provider.Core.Session.{Session}

-- The receipt of an operation, in no more than the receipts that are allowed.
record Remembers (operation_id : String) (limit : ℕ) (result : Result Execution) (t : Session)
    : Type 0 where
  here : get operation_id t.interrupt_receipts ≡ some result
  few : length t.interrupt_receipts ≤ limit
