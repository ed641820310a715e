-- ===== src/Core/Spool.antt =====
-- packages/process-execution-core/src/session.rs, `OutputSpool`: the complete output of a run in a
-- file, with a bounded tail for previews. The bytes that the file has received are the field
-- `written`, the bytes that the hasher has been fed the field `hashed`. What the operating system
-- answers to a write is an argument: a function of the bytes that are left, which differ at each
-- write of one call.
pub mod Tail
pub mod Written
mod Tests
use execution_provider.Prelude.{
  ℕ, zero, suc, ◌+◌, ◌-◌, String, Bool, true, false, ◌&&◌, not, Option, none, some, List, [], ◌∷◌,
  ◌++◌, min, ltb, leb, eqb, if◌then◌else◌, length, is_empty, take, drop, is_none, unwrap_or,
}
use execution_provider.Core.Config.{u64_max}
use execution_provider.Core.Types.{Uuid, Bytes, Time, OutputChunk, OutputStream, RunOutputFile}

pub record OutputSpool : Type 0 where
  pub artifact_id : Uuid
  pub path : String
  pub file : Bool
  pub hashed : Bytes
  pub written : Bytes
  pub sha256 : Option String
  pub size_bytes : ℕ
  pub captured_bytes : ℕ
  pub tail : List OutputChunk
  pub tail_bytes : ℕ
  pub tail_capacity : ℕ
  pub error : Option String

-- The value that `OutputSpool::create` returns once its file is open.
unfoldable pub create : Uuid → String → ℕ → OutputSpool
create artifact_id path tail_capacity = record {
  artifact_id = artifact_id;
  path = path;
  file = true;
  hashed = [];
  written = [];
  sha256 = none;
  size_bytes = 0;
  captured_bytes = 0;
  tail = [];
  tail_bytes = 0;
  tail_capacity = tail_capacity;
  error = none;
}

-- `get_or_insert`
abbrev pub or_insert : Option String → String → Option String
or_insert none message = some message
or_insert (some old) message = some old

abbrev pub fail : OutputSpool → String → OutputSpool
fail s message = record s { error = or_insert s.error message; file = false }

-- The answers of `File::write`.
pub data WriteOutcome : Type 0 where
  wrote : ℕ → WriteOutcome
  failed : String → WriteOutcome

-- The loop of `append` that writes what remains. Each round that goes on has written a byte, so the
-- length of the data is fuel enough: `append-Captures` shows that nothing is left out.
write_remaining : (Bytes → WriteOutcome) → ℕ → Bytes → OutputSpool → OutputSpool
write_remaining disk zero remaining s = s
write_remaining disk (suc fuel) [] s = s
write_remaining disk (suc fuel) (b ∷ bs) s = elim (disk (b ∷ bs)) [
  | failed message ↦ fail s message
  | wrote zero ↦ fail s "output file write returned zero bytes"
  | wrote (suc n) ↦ write_remaining disk fuel (drop (suc n) (b ∷ bs)) (record s {
    hashed = s.hashed ++ take (suc n) (b ∷ bs);
    written = s.written ++ take (suc n) (b ∷ bs);
    size_bytes = s.size_bytes + suc n;
  })
]

-- The loop of `append_tail` that discards from the front, on the byte count and the chunks. `none` is
-- the panic of `expect("tail is not empty")`. A front chunk of which something is left has brought
-- the count down to the capacity, and ends the loop.
trim_tail : ℕ → ℕ → List OutputChunk → Option (ℕ × List OutputChunk)
trim_tail capacity bytes [] = if ltb capacity bytes then none else some (bytes, [])
trim_tail capacity bytes (front ∷ rest) =
    let count = min (bytes - capacity) (length front.bytes) in
    let left = drop count front.bytes in
    if ltb capacity bytes
    then (if is_empty left
        then trim_tail capacity (bytes - count) rest
        else some (bytes - count, record front { bytes = left } ∷ rest))
    else some (bytes, front ∷ rest)

unfoldable pub append_tail : OutputSpool → OutputStream → Bytes → Option OutputSpool
unfolding trim_tail
append_tail s stream bytes =
    let chunks = s.tail ++ record { stream = stream; bytes = bytes } ∷ [] in
    if eqb s.tail_capacity 0
    then some s
    else elim (trim_tail s.tail_capacity (s.tail_bytes + length bytes) chunks) [
      | none ↦ none
      | some (count, kept) ↦ some (record s { tail = kept; tail_bytes = count })
    ]

unfoldable pub append :
    (Bytes → WriteOutcome) → OutputSpool → OutputStream → Bytes → Option OutputSpool
unfolding append_tail write_remaining
append disk s stream bytes =
    let captured = min (s.captured_bytes + length bytes) u64_max in
    elim (append_tail (record s { captured_bytes = captured }) stream bytes) [
      | none ↦ none
      | some s' ↦ some (if s'.file then write_remaining disk (length bytes) bytes s' else s')
    ]

-- `finalize`: `flushed` is the error of `flush` and `sync_data`, if there is one, and `digest` the
-- SHA-256 of the hasher's bytes in hexadecimal.
unfoldable pub finalize : (Bytes → String) → Option String → OutputSpool → OutputSpool
finalize digest flushed s =
    let error =
      if s.file
      then (elim flushed [ none ↦ s.error | some message ↦ or_insert s.error message ])
      else s.error in
    record s { file = false; error = error; sha256 = some (digest s.hashed) }

-- The loop of `preview`, on what is still to be skipped.
skip_chunks : ℕ → List OutputChunk → List OutputChunk
skip_chunks skip [] = []
skip_chunks skip (c ∷ rest) =
    let inside = leb (length c.bytes) skip in
    let later = skip_chunks (if inside then skip - length c.bytes else 0) rest in
    if inside then later else record c { bytes = drop skip c.bytes } ∷ later

unfoldable pub preview : OutputSpool → ℕ → List OutputChunk
unfolding skip_chunks
preview s limit = skip_chunks (s.tail_bytes - limit) s.tail

unfoldable pub output_file : OutputSpool → Bool → Time → RunOutputFile
output_file s complete expires_at = record {
  artifact_id = s.artifact_id;
  path = s.path;
  size_bytes = s.size_bytes;
  sha256 = unwrap_or s.sha256 "";
  complete = complete && is_none s.error;
  expires_at = expires_at;
}
