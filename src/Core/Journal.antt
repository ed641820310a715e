-- ===== src/Core/Journal.antt =====
-- packages/process-execution-core/src/journal.rs: the bounded journal of one execution's output.
-- `none` stands for the panic of `chunks.front_mut().unwrap()`. Positions are plain numbers: the
-- wrap-around of `u64` after 2^64 bytes of output is not modelled.
pub mod Retention
pub mod Reading
mod Tests
use execution_provider.Prelude.{
  ℕ, ◌+◌, ◌-◌, Bool, true, false, ◌&&◌, ◌||◌, not, Option, none, some, List, [], ◌∷◌, ◌++◌, map,
  min, max, ltb, leb, eqb, if◌then◌else◌, length, is_empty, drop, slice, flat_map,
}
use execution_provider.Core.Errors.{Error, Result, ok, err, invalid}
use execution_provider.Core.Types.{
  Bytes, Execution, ExecutionHandle, Cursor, ObserveRequest, Observation, OutputChunk, OutputStream,
  Output, ReturnReason, is_finished,
}

pub record Journal : Type 0 where
  pub chunks : List OutputChunk
  pub start : ℕ
  pub end : ℕ
  pub capacity : ℕ
  pub revision : ℕ

-- `Journal::new`
unfoldable pub new : ℕ → Journal
new capacity = record { chunks = []; start = 0; end = 0; capacity = capacity; revision = 0 }

-- The loop of `append` that discards expired bytes, on the start position and the chunks. A front
-- chunk that is cut and not removed has taken `start` to `target`, and ends the loop.
trim : ℕ → ℕ → List OutputChunk → Option (ℕ × List OutputChunk)
trim target start [] = if ltb start target then none else some (start, [])
trim target start (front ∷ rest) =
    let discard = min (target - start) (length front.bytes) in
    if ltb start target
    then (if eqb discard (length front.bytes)
        then trim target (start + discard) rest
        else some (start + discard, record front { bytes = drop discard front.bytes } ∷ rest))
    else some (start, front ∷ rest)

unfoldable pub append : Journal → OutputStream → Bytes → Option Journal
unfolding trim
append j stream bytes =
    let end = j.end + length bytes in
    let chunks = j.chunks ++ record { stream = stream; bytes = bytes } ∷ [] in
    let target = end - j.capacity in
    elim (trim target j.start chunks) [
      | none ↦ none
      | some (start, kept) ↦ some (record j { chunks = kept; start = start; end = end })
    ]

-- The loop of `read` that copies what lies between `begin` and `end`.
collect : ℕ → ℕ → ℕ → List OutputChunk → List OutputChunk
collect begin end position [] = []
collect begin end position (chunk ∷ rest) =
    let next = position + length chunk.bytes in
    let from = max begin position in
    let to = min end next in
    let later = collect begin end next rest in
    let others = if leb end next then [] else later in
    if ltb from to
    then record chunk { bytes = slice (from - position) (to - position) chunk.bytes } ∷ others
    else others

abbrev pub same_handle : ExecutionHandle → ExecutionHandle → Bool
same_handle a b = eqb a.id b.id && eqb a.generation_id b.generation_id

-- The cursor belongs to another execution or is ahead of the output.
unfoldable pub is_stale : Journal → Execution → Option Cursor → Bool
is_stale j execution none = false
is_stale j execution (some c) =
    not (same_handle c.handle execution.handle) || (ltb j.end c.offset || ltb j.revision c.revision)

abbrev pub requested : Option Cursor → ℕ
requested none = 0
requested (some c) = c.offset

-- `cursor.is_none_or(|c| c.revision < self.revision)`
is_outdated : Journal → Option Cursor → Bool
is_outdated j none = true
is_outdated j (some c) = ltb c.revision j.revision

abbrev pub begin_of : Journal → Option Cursor → ℕ
begin_of j cursor = max (requested cursor) j.start

abbrev pub end_of : Journal → Option Cursor → ℕ → ℕ
end_of j cursor limit = min j.end (begin_of j cursor + limit)

reason : Journal → Execution → Option Cursor → ℕ → List OutputChunk → ReturnReason
unfolding is_outdated
reason j execution cursor limit output =
    if leb limit (end_of j cursor limit - begin_of j cursor)
    then ReturnReason.output_limit
    else if is_finished execution.state
    then ReturnReason.finished
    else if not (is_empty output) || (ltb (requested cursor) j.start || is_outdated j cursor)
    then ReturnReason.activity
    else ReturnReason.wait_elapsed

-- The observation that `read` returns past its check of the cursor.
unfoldable pub observe : Journal → Execution → Option Cursor → ℕ → Observation
unfolding reason collect
observe j execution cursor limit =
    let begin = begin_of j cursor in
    let end = end_of j cursor limit in
    let output = collect begin end j.start j.chunks in
    record {
      execution = execution;
      output = output;
      next_cursor = record { handle = execution.handle; offset = end; revision = j.revision };
      has_more = ltb end j.end;
      output_gap = ltb (requested cursor) j.start;
      return_reason = reason j execution cursor limit output;
    }

abbrev pub stale_cursor : Error
stale_cursor = invalid "cursor does not belong to this execution or is ahead of its output"

unfoldable pub read : Journal → Execution → ObserveRequest → ℕ → Result Observation
unfolding is_stale observe
read j execution request limit =
    if is_stale j execution request.after_cursor
    then err stale_cursor
    else ok (observe j execution request.after_cursor limit)

-- The bytes of a chunk, each with its stream, and those of a list of chunks.
abbrev pub chunk_output : OutputChunk → Output
chunk_output chunk = map (λ b. (chunk.stream, b)) chunk.bytes

abbrev pub output_of : List OutputChunk → Output
output_of = flat_map chunk_output
