-- ===== src/Daemon/Receipts.antt =====
-- apps/process-execution-host-daemon/src/receipts.rs: the reservations that let every accepted
-- request keep its response until the gateway acknowledges it. `none` of `complete` stands for the
-- panic of `expect("accepted request has a receipt")`. A fingerprint is a number, a response a text
-- whose `len` is its size in bytes.
pub mod Capacity
pub mod Retention
pub mod Runs
mod Tests
use Prim.Native.String.{len}
use execution_provider.Prelude.{
  ℕ, ◌+◌, ◌-◌, ◌*◌, String, Bool, ◌||◌, Option, none, some, List, [], ◌∷◌, ltb, leb, eqb, any,
  if◌then◌else◌, length, ◌==◌, string_eq,
}
use execution_provider.Prelude.Dict.{Dict, get, contains_key, insert, remove}
use execution_provider.Protocol.Limits.{max_frame_bytes}

abbrev pub max_receipts : ℕ
max_receipts = 128

abbrev pub max_bytes : ℕ
max_bytes = 256 * 1024 * 1024

pub data Admission : Type 0 where
  new existing conflict full : Admission

pub record Receipt : Type 0 where
  pub fingerprint : ℕ
  pub response : Option String

pub record Receipts : Type 0 where
  pub entries : Dict String Receipt
  pub bytes : ℕ

abbrev pub default : Receipts
default = record { entries = []; bytes = 0 }

unfoldable pub accept : Receipts → String → ℕ → Bool → Admission × Receipts
accept r id fingerprint busy = elim (get id r.entries) [
  | some receipt ↦
      if eqb receipt.fingerprint fingerprint
      then (Admission.existing, r)
      else (Admission.conflict, r)
  | none ↦
      if busy || (leb max_receipts (length r.entries) || ltb max_bytes (r.bytes + max_frame_bytes))
      then (Admission.full, r)
      else (
        Admission.new,
        record {
          entries = insert id (record { fingerprint = fingerprint; response = none }) r.entries;
          bytes = r.bytes + max_frame_bytes;
        },
      )
]

unfoldable pub complete : Receipts → String → String → Option Receipts
complete r id response = elim (get id r.entries) [
  | none ↦ none
  | some receipt ↦ some (record {
    entries = insert id (record receipt { response = some response }) r.entries;
    bytes = r.bytes - max_frame_bytes + len response;
  })
]

abbrev pub contains : Receipts → String → Bool
contains r id = contains_key id r.entries

-- The method `response`: the stored response of a request, if it has one.
abbrev pub response_of : Option Receipt → Option String
response_of none = none
response_of (some receipt) = receipt.response

abbrev pub response : Receipts → String → Option String
response r id = response_of (get id r.entries)

-- `entries.iter().find_map(…)` over the entries in the map's order.
unfoldable pub find_response : List String → Dict String Receipt → Option (String × String)
find_response sent [] = none
find_response sent ((id, receipt) ∷ rest) =
    let later = find_response sent rest in
    if any (λ s. s == id) sent
    then later
    else elim receipt.response [ none ↦ later | some text ↦ some (id, text) ]

unfoldable pub next_response : Receipts → List String → Option (String × String)
unfolding find_response
next_response r sent = find_response sent r.entries

unfoldable pub acknowledge : Receipts → String → Receipts
acknowledge r id = elim (response r id) [
  | none ↦ r
  | some text ↦ record { entries = remove id r.entries; bytes = r.bytes - len text }
]
