-- ===== src/Daemon/Receipts/Runs.antt =====
-- The receipts over any history of the daemon's calls.
use Prim.Native.String.{len}
use execution_provider.Prelude.{ℕ, ◌≤◌, ◌≡◌, String, Bool, none, some, string_eq, subst}
use execution_provider.Prelude.Dict.{get}
use execution_provider.Protocol.Limits.{max_frame_bytes}
use execution_provider.Daemon.Receipts.{Receipts, Receipt, default, accept, complete, acknowledge}
use execution_provider.Daemon.Receipts.Capacity.{
  IsValid, default-IsValid, accept-IsValid, complete-IsValid, acknowledge-IsValid,
}

-- One call. The daemon completes a request once, with a response that its transport could send.
pub data Step (r : Receipts) : Receipts → Type 0 where
  accepts : (id : String) (fingerprint : ℕ) (busy : Bool) → Step r (accept r id fingerprint busy).1
  completes :
      {r' : Receipts} (id text : String) (receipt : Receipt)
      → get id r.entries ≡ some receipt
      → receipt.response ≡ none
      → len text ≤ max_frame_bytes
      → complete r id text ≡ some r'
      → Step r r'
  acknowledges : (id : String) → Step r (acknowledge r id)

pub data Reach : Receipts → Type 0 where
  start : Reach default
  next : {r r' : Receipts} → Reach r → Step r r' → Reach r'

completed-IsValid :
    (r r' : Receipts) (id text : String) (receipt : Receipt)
    → IsValid r
    → get id r.entries ≡ some receipt
    → receipt.response ≡ none
    → len text ≤ max_frame_bytes
    → complete r id text ≡ some r'
    → IsValid r'
completed-IsValid r r' id text receipt v here fresh fits e =
    let (q, runs, valid, _, _) = complete-IsValid r id text receipt v here fresh fits in
    subst IsValid (let same : q ≡ r' = cc in same) valid

-- Whatever the history of calls, the byte count is exact, no more than 128 requests and 256 MiB are
-- held, and no request is listed twice.
pub Reach-IsValid : {r : Receipts} → Reach r → IsValid r
Reach-IsValid start = default-IsValid
Reach-IsValid (next {r} h (accepts id fingerprint busy)) =
    accept-IsValid r id fingerprint busy (Reach-IsValid h)
Reach-IsValid (next {r} {r'} h (completes id text receipt here fresh fits e)) =
    completed-IsValid r r' id text receipt (Reach-IsValid h) here fresh fits e
Reach-IsValid (next {r} h (acknowledges id)) = acknowledge-IsValid r id (Reach-IsValid h)
