-- ===== src/Core/Journal/Reading.antt =====
-- `Journal::read` against the history: which bytes an observation holds, and what it reports.
use execution_provider.Prelude.{
  ℕ, ◌+◌, ◌-◌, ◌≤◌, ◌<◌, ◌≡◌, ◌↔◌, refl, sym, ap, ap₂, ◌∙◌, inl, inr, true, false, Option, none,
  some, List, [], ◌∷◌, ◌++◌, min, max, arith, ltb, leb, if◌then◌else◌, Bool-cases, length, take,
  drop, slice, length-take, length-drop, map-drop, map-take, take_zero, take-min, take_add,
  take-length-take, drop-append_le, drop_congr, drop-drop, drop_nil, take_nil, slice-append,
}
use execution_provider.Core.Types.{Execution, Cursor, Observation, OutputChunk, Output}
use execution_provider.Core.Journal.{
  Journal, chunk_output, output_of, collect, is_stale, requested, begin_of, observe,
}
use execution_provider.Core.Journal.Retention.{Represents, length-chunk_output}

map-slice :
    (c : OutputChunk) (lo hi : ℕ)
    → chunk_output (record c { bytes = slice lo hi c.bytes }) ≡ slice lo hi (chunk_output c)
map-slice c lo hi =
    map-take (λ b. (c.stream, b)) (hi - lo) (drop lo c.bytes)
    ∙ ap (take (hi - lo)) (map-drop (λ b. (c.stream, b)) lo c.bytes)

slice_empty : (lo hi : ℕ) (o : Output) → hi ≤ lo → slice lo hi o ≡ []
slice_empty lo hi o h = take_zero (hi - lo) (drop lo o) (omega arith)

slice_congr : (a b c d : ℕ) (o : Output) → a ≡ c → b ≡ d → slice a b o ≡ slice c d o
slice_congr a b c d o p q = ap₂ (λ x y. slice x y o) p q

-- What a loop over the later chunks leaves, once the window may have ended in this one.
rest_output :
    (begin end next : ℕ) (rest later : List OutputChunk)
    → output_of later ≡ slice (begin - next) (end - next) (output_of rest)
    → output_of (if leb end next then [] else later)
      ≡ slice (begin - next) (end - next) (output_of rest)
rest_output begin end next rest later h = elim (Bool-cases (leb end next)) [
  | inl e ↦ rw e (sym (slice_empty (begin - next) (end - next) (output_of rest) (ground arith)))
  | inr e ↦ rw e h
]

head_output :
    (from to position : ℕ) (c : OutputChunk) (others : List OutputChunk)
    → position ≤ from
    → output_of (
        if ltb from to
        then record c { bytes = slice (from - position) (to - position) c.bytes } ∷ others
        else others)
      ≡ slice (from - position) (to - position) (chunk_output c) ++ output_of others
head_output from to position c others h = elim (Bool-cases (ltb from to)) [
  | inl e ↦ rw e (ap (λ o. o ++ output_of others) (map-slice c (from - position) (to - position)))
  | inr e ↦ rw e (
      ap (λ o. o ++ output_of others)
        (sym (slice_empty (from - position) (to - position) (chunk_output c) (ground arith))))
]

window_split :
    (begin end position : ℕ) (c : OutputChunk) (rest : Output)
    → slice
          (max begin position - position)
          (min end (position + length c.bytes) - position)
          (chunk_output c)
        ++ slice (begin - (position + length c.bytes)) (end - (position + length c.bytes)) rest
      ≡ slice (begin - position) (end - position) (chunk_output c ++ rest)
window_split begin end position c rest =
    let n : length (chunk_output c) ≡ length c.bytes = length-chunk_output c in
    ap₂ ◌++◌
      (slice_congr (max begin position - position) (min end (position + length c.bytes) - position)
        (begin - position) (min (end - position) (length (chunk_output c))) (chunk_output c)
        (omega arith) (omega arith))
      (slice_congr (begin - (position + length c.bytes)) (end - (position + length c.bytes))
        (begin - position - length (chunk_output c)) (end - position - length (chunk_output c)) rest
        (omega arith) (omega arith))
    ∙ sym (slice-append (begin - position) (end - position) (chunk_output c) rest)

-- The loop copies exactly the window, whatever the chunks are.
collect_lem :
    (begin end position : ℕ) (chunks : List OutputChunk)
    → output_of (collect begin end position chunks)
      ≡ slice (begin - position) (end - position) (output_of chunks)
unfolding collect
collect_lem begin end position [] =
    sym (ap (take (end - position - (begin - position))) (drop_nil (begin - position)) ∙ take_nil _)
collect_lem begin end position (c ∷ rest) =
    let next : ℕ = position + length c.bytes in
    let later : List OutputChunk = collect begin end next rest in
    head_output (max begin position) (min end next) position c (if leb end next then [] else later)
      (omega arith)
    ∙ ap (◌++◌ (slice (max begin position - position) (min end next - position) (chunk_output c)))
        (rest_output begin end next rest later (collect_lem begin end next rest))
    ∙ window_split begin end position c (output_of rest)

-- What an observation promises of the history `h`, from the cursor that the caller sent.
pub record Observes (j : Journal) (h : Output) (execution : Execution) (cursor : Option Cursor)
    (limit : ℕ) (o : Observation) : Type 0 where
  -- The output is the history from the later of cursor and start, up to the limit.
  pub window : output_of o.output ≡ take limit (drop (begin_of j cursor) h)
  -- The next cursor stands right behind it, and remembers the revision.
  pub resumes : o.next_cursor.offset ≡ begin_of j cursor + length (output_of o.output)
  pub handle : o.next_cursor.handle ≡ execution.handle
  pub revision : o.next_cursor.revision ≡ j.revision
  -- More is promised exactly when the history goes on behind the next cursor.
  pub more : (o.has_more ≡ true) ↔ (o.next_cursor.offset < length h)
  -- A gap is reported exactly when the bytes at the cursor have expired.
  pub gap : (o.output_gap ≡ true) ↔ (requested cursor < j.start)
  pub execution_same : o.execution ≡ execution

is_stale-requested :
    (j : Journal) (execution : Execution) (cursor : Option Cursor)
    → is_stale j execution cursor ≡ false
    → requested cursor ≤ j.end
unfolding is_stale
is_stale-requested j execution none h = omega arith
is_stale-requested j execution (some c) h = ground arith

read_window :
    (j : Journal) (h : Output) (begin limit : ℕ)
    → Represents j h
    → j.start ≤ begin
    → output_of (collect begin (min j.end (begin + limit)) j.start j.chunks)
      ≡ take limit (drop begin h)
read_window j h begin limit r lo =
    let end : ℕ = min j.end (begin + limit) in
    collect_lem begin end j.start j.chunks
    ∙ ap (slice (begin - j.start) (end - j.start)) r.kept
    ∙ ap (take (end - j.start - (begin - j.start))) (drop-drop (begin - j.start) j.start h)
    ∙ ap₂ take
        (let e : end - j.start - (begin - j.start) ≡ min limit (length (drop begin h)) =
            omega (arith, r.total, length-drop begin h) in
          e)
        (drop_congr (j.start + (begin - j.start)) begin h (omega arith))
    ∙ take-min limit (drop begin h)

window_length :
    (j : Journal) (h : Output) (begin limit : ℕ)
    → Represents j h
    → begin ≤ j.end
    → begin + length (take limit (drop begin h)) ≡ min j.end (begin + limit)
window_length j h begin limit r hi =
    omega (arith, r.total, length-take limit (drop begin h), length-drop begin h)

pub observe-Observes :
    (j : Journal) (h : Output) (execution : Execution) (cursor : Option Cursor) (limit : ℕ)
    → Represents j h
    → is_stale j execution cursor ≡ false
    → Observes j h execution cursor limit (observe j execution cursor limit)
unfolding observe
observe-Observes j h execution cursor limit r fresh =
    let begin : ℕ = begin_of j cursor in
    let window = read_window j h begin limit r (omega arith) in
    let ends =
      window_length j h begin limit r
        (omega (arith, r.window, is_stale-requested j execution cursor fresh)) in
    record {
      window = window;
      resumes = sym ends ∙ ap (λ o. begin + length o) (sym window);
      handle = refl;
      revision = refl;
      more = ground (arith, r.total);
      gap = ground arith;
      execution_same = refl;
    }

resume_begin :
    (j : Journal) (o o' : Observation)
    → (o'.output_gap ≡ true) ↔ (o.next_cursor.offset < j.start)
    → o'.output_gap ≡ false
    → begin_of j (some o.next_cursor) ≡ o.next_cursor.offset
resume_begin j o o' gap no_gap = ground arith

resume_window :
    (j j' : Journal) (h later : Output) (execution execution' : Execution) (cursor : Option Cursor)
    (limit limit' : ℕ) (o o' : Observation)
    → Represents j h
    → Represents j' (h ++ later)
    → Observes j h execution cursor limit o
    → Observes j' (h ++ later) execution' (some o.next_cursor) limit' o'
    → o'.output_gap ≡ false
    → begin_of j cursor ≤ length h
    → output_of o.output ++ output_of o'.output
      ≡ take (length (output_of o.output) + limit') (drop (begin_of j cursor) (h ++ later))
resume_window j j' h later execution execution' cursor limit limit' o o' r r' v v' no_gap inside =
    let b : ℕ = begin_of j cursor in
    let n : ℕ = length (output_of o.output) in
    let all : Output = h ++ later in
    let behind : drop b all ≡ drop b h ++ later = drop-append_le b h later inside in
    let first : output_of o.output ≡ take n (drop b all) =
      v.window
      ∙ sym (take-length-take limit (drop b h) later)
      ∙ ap₂ take (ap length (sym v.window)) (sym behind) in
    let second : output_of o'.output ≡ take limit' (drop n (drop b all)) =
      v'.window
      ∙ ap (take limit') (
          drop_congr (begin_of j' (some o.next_cursor)) (b + n) all
            (resume_begin j' o o' v'.gap no_gap ∙ v.resumes)
          ∙ sym (drop-drop n b all)) in
    ap₂ ◌++◌ first second ∙ sym (take_add n limit' (drop b all))

-- A reader that goes on from the cursor that it was given loses nothing and sees nothing twice, also
-- when output has arrived in between, as long as the second read reports no gap: the two outputs in a
-- row are one stretch of the history, from where the first read began. The first cursor is not stale,
-- and neither is the second one on the later journal.
pub read_resumes :
    (j j' : Journal) (h later : Output) (execution execution' : Execution) (cursor : Option Cursor)
    (limit limit' : ℕ)
    → Represents j h
    → Represents j' (h ++ later)
    → is_stale j execution cursor ≡ false
    → is_stale j' execution' (some (observe j execution cursor limit).next_cursor) ≡ false
    → (observe j' execution'
        (some (observe j execution cursor limit).next_cursor)
        limit').output_gap
      ≡ false
    → let o = observe j execution cursor limit in
      let o' = observe j' execution' (some o.next_cursor) limit' in
      output_of o.output ++ output_of o'.output
      ≡ take (length (output_of o.output) + limit') (drop (begin_of j cursor) (h ++ later))
read_resumes j j' h later execution execution' cursor limit limit' r r' fresh fresh' no_gap =
    let o = observe j execution cursor limit in
    resume_window j j' h later execution execution' cursor limit limit' o
      (observe j' execution' (some o.next_cursor) limit') r r'
      (observe-Observes j h execution cursor limit r fresh)
      (observe-Observes j' (h ++ later) execution' (some o.next_cursor) limit' r' fresh') no_gap
      (omega (arith, r.total, r.window, is_stale-requested j execution cursor fresh))
