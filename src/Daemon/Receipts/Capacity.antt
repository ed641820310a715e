-- ===== src/Daemon/Receipts/Capacity.antt =====
-- The byte count of the receipts, and the bounds that it keeps.
use Prim.Native.String.{len}
use execution_provider.Prelude.{
  ℕ, ◌+◌, ◌-◌, ◌≤◌, ◌≡◌, String, Bool, Option, none, some, inl, inr, arith, length, sum_by,
  Option-cases, string_eq, refl, ap,
}
use execution_provider.Prelude.Dict.{
  Distinct, get, get-insert_self, insert, insert-Distinct, remove-Distinct, length-insert_new,
  length-insert_old, length-remove, sum_by-insert_new, sum_by-insert_old, sum_by-remove,
}
use execution_provider.Protocol.Limits.{max_frame_bytes}
use execution_provider.Daemon.Receipts.{
  Receipts, Receipt, default, accept, complete, response, acknowledge, response_of, max_receipts,
  max_bytes,
}

-- What an entry occupies: a whole frame while its response is open, and then the response's size.
abbrev pub size : Option String → ℕ
size none = max_frame_bytes
size (some text) = len text

abbrev pub reserved : Receipt → ℕ
reserved receipt = size receipt.response

pub record IsValid (r : Receipts) : Type 0 where
  pub distinct : Distinct r.entries
  pub counted : r.bytes ≡ sum_by (λ p. reserved p.1) r.entries
  pub few : length r.entries ≤ max_receipts
  pub small : r.bytes ≤ max_bytes

pub default-IsValid : IsValid default
default-IsValid = omega arith

pub accept-IsValid :
    (r : Receipts) (id : String) (fingerprint : ℕ) (busy : Bool)
    → IsValid r
    → IsValid (accept r id fingerprint busy).1
unfolding accept
accept-IsValid r id fingerprint busy v =
    let receipt : Receipt = record { fingerprint = fingerprint; response = none } in
    ground (
      arith,
      insert-Distinct id receipt r.entries v.distinct,
      sum_by-insert_new reserved id receipt r.entries,
      length-insert_new id receipt r.entries,
    )

reserved_open : (receipt : Receipt) → receipt.response ≡ none → reserved receipt ≡ max_frame_bytes
reserved_open receipt h = ap size h

-- Completing an accepted request that has no response yet, with a response that fits into a frame (the
-- source's `debug_assert!`), never panics and keeps the receipts valid; the reserved frame is exchanged
-- for the response's own size.
pub complete-IsValid :
    (r : Receipts) (id text : String) (receipt : Receipt)
    → IsValid r
    → get id r.entries ≡ some receipt
    → receipt.response ≡ none
    → len text ≤ max_frame_bytes
    → (r' : Receipts) × (complete r id text ≡ some r')
      × IsValid r'
      × (response r' id ≡ some text)
      × (r'.bytes + max_frame_bytes ≡ r.bytes + len text)
unfolding complete
complete-IsValid r id text receipt v here fresh fits =
    let done : Receipt = record receipt { response = some text } in
    let room = sum_by-remove reserved id receipt r.entries here in
    let moved = sum_by-insert_old reserved id done receipt r.entries here in
    (
      record { entries = insert id done r.entries; bytes = r.bytes - max_frame_bytes + len text },
      rw (here, complete) refl,
      record {
        distinct = insert-Distinct id done r.entries v.distinct;
        counted = omega (arith, v.counted, room, moved, reserved_open receipt fresh);
        few = omega (arith, v.few, length-insert_old id done receipt r.entries here);
        small = omega (arith, v.counted, v.small, room, reserved_open receipt fresh);
      },
      ap response_of (get-insert_self id done r.entries),
      omega (arith, v.counted, room, reserved_open receipt fresh),
    )

acknowledge_known :
    (r : Receipts) (id : String) (receipt : Receipt)
    → IsValid r
    → get id r.entries ≡ some receipt
    → IsValid (acknowledge r id)
unfolding acknowledge
acknowledge_known r id receipt v here = ground (
  arith,
  remove-Distinct id r.entries v.distinct,
  sum_by-remove reserved id receipt r.entries here,
  length-remove id receipt r.entries here,
)

pub acknowledge-IsValid : (r : Receipts) (id : String) → IsValid r → IsValid (acknowledge r id)
unfolding acknowledge
acknowledge-IsValid r id v = elim (Option-cases (get id r.entries)) [
  | inl missing ↦ rw (missing, acknowledge) v
  | inr (receipt, here) ↦ acknowledge_known r id receipt v here
]
