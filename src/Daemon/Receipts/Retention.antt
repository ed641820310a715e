-- ===== src/Daemon/Receipts/Retention.antt =====
-- What the receipts remember: admission, and that no pending work is dropped.
use execution_provider.Prelude.{
  ℕ, ◌+◌, ◌≤◌, ◌<◌, ◌≡◌, ◌≢◌, ◌↔◌, String, Bool, true, false, none, some, List, [], ◌∷◌, inl, inr,
  arith, length, any, Option-cases, string_eq, if◌then◌else◌, ◌==◌,
}
use text.Mathlib.TextEquality.{eq_iff}
use execution_provider.Prelude.Dict.{
  Dict, Distinct, get, get-insert, get-insert_self, get-insert_ne, get-remove_ne, get-remove_self,
}
use execution_provider.Protocol.Limits.{max_frame_bytes}
use execution_provider.Daemon.Receipts.{
  Receipts, Receipt, Admission, accept, complete, response, response_of, acknowledge, find_response,
  next_response, max_receipts, max_bytes,
}

-- A request is newly accepted exactly when it is unknown, the host is not busy, and a receipt and a
-- whole frame for its response are free; then its receipt is there, with no response yet.
pub accept-new_iff :
    (r : Receipts) (id : String) (fingerprint : ℕ) (busy : Bool)
    → let (admission, r') = accept r id fingerprint busy in
      (admission ≡ Admission.new) ↔ (
        (get id r.entries ≡ none)
        × (busy ≡ false)
        × (length r.entries < max_receipts)
        × (r.bytes + max_frame_bytes ≤ max_bytes)
        × (get id r'.entries ≡ some (record { fingerprint = fingerprint; response = none })))
unfolding accept
accept-new_iff r id fingerprint busy =
    ground
      (arith, get-insert_self id (record { fingerprint = fingerprint; response = none }) r.entries)

-- No admission touches a receipt that is there.
pub accept_keeps :
    (r : Receipts) (id other : String) (receipt : Receipt) (fingerprint : ℕ) (busy : Bool)
    → get other r.entries ≡ some receipt
    → get other (accept r id fingerprint busy).1.entries ≡ some receipt
unfolding accept
accept_keeps r id other receipt fingerprint busy here = ground (
  arith,
  get-insert id other (record { fingerprint = fingerprint; response = none }) r.entries,
  eq_iff id other,
)

-- An acknowledgement forgets exactly a request that has its response: a pending one stays, and so do
-- all other receipts.
pub acknowledge_forgets :
    (r : Receipts) (id other : String)
    → Distinct r.entries
    → get other (acknowledge r id).entries ≡ (
        if id == other
        then elim (response r id) [ none ↦ get other r.entries | some _ ↦ none ]
        else get other r.entries)
unfolding acknowledge
acknowledge_forgets r id other distinct = ground (
  arith,
  eq_iff id other,
  get-remove_ne id other r.entries,
  get-remove_self id r.entries distinct,
)

abbrev pub is_sent : List String → String → Bool
is_sent sent id = any (λ s. s == id) sent

found_lem :
    (sent : List String) (entries : Dict String Receipt) (id text : String)
    → Distinct entries
    → find_response sent entries ≡ some (id, text)
    → (is_sent sent id ≡ false) × (response_of (get id entries) ≡ some text)
unfolding find_response
found_lem sent [] id text distinct e = cc
found_lem sent ((j, receipt) ∷ rest) id text distinct e =
    ground (arith, eq_iff j id, found_lem sent rest id text distinct.1)

missing_lem :
    (sent : List String) (entries : Dict String Receipt) (id text : String)
    → find_response sent entries ≡ none
    → response_of (get id entries) ≡ some text
    → is_sent sent id ≡ true
unfolding find_response
missing_lem sent [] id text e here = cc
missing_lem sent ((j, receipt) ∷ rest) id text e here =
    ground (arith, eq_iff j id, missing_lem sent rest id text)

-- What is sent next is an unsent response of that very request.
next_response_unsent :
    (r : Receipts) (sent : List String) (id text : String)
    → Distinct r.entries
    → next_response r sent ≡ some (id, text)
    → (is_sent sent id ≡ false) × (response r id ≡ some text)
unfolding next_response
next_response_unsent r sent id text distinct = found_lem sent r.entries id text distinct

-- When nothing is to be sent next, every response that is still kept has been sent.
next_response_exhausted :
    (r : Receipts) (sent : List String) (id text : String)
    → next_response r sent ≡ none
    → response r id ≡ some text
    → is_sent sent id ≡ true
unfolding next_response
next_response_exhausted r sent id text e = missing_lem sent r.entries id text e

-- Completing one request leaves the receipts of all others alone.
pub complete_keeps :
    (r r' : Receipts) (id other text : String)
    → complete r id text ≡ some r'
    → id ≢ other
    → get other r'.entries ≡ get other r.entries
unfolding complete
complete_keeps r r' id other text e ne = elim (Option-cases (get id r.entries)) [
  | inl missing ↦ ground arith
  | inr (receipt, here) ↦
      ground (arith, get-insert_ne id other (record receipt { response = some text }) r.entries ne)
]
