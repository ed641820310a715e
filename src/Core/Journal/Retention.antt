-- ===== src/Core/Journal/Retention.antt =====
-- `Journal::append` against the full history of the output: what is kept, and what has expired.
use native.Mathlib.Decide.{dec_lt}
use execution_provider.Prelude.{
  ℕ, ◌+◌, ◌-◌, ◌≤◌, ◌<◌, ap₂, drop_zero, drop_nil, drop-append_le, drop-drop, ◌≡◌, refl, sym, ap,
  ◌∙◌, some, List, [], ◌∷◌, ◌++◌, map, min, arith, length, drop, length-append, length-map,
  length-drop, drop-append, drop_all, drop_congr, map-drop, flat_map-append, append-nil,
}
use execution_provider.Core.Types.{Bytes, OutputChunk, OutputStream, Output}
use execution_provider.Core.Journal.{Journal, new, trim, append, chunk_output, output_of}

-- `j` stands for the history `h`: it counts every byte, and keeps the newest `capacity` of them.
pub record Represents (j : Journal) (h : Output) : Type 0 where
  pub total : j.end ≡ length h
  pub window : j.start ≡ j.end - j.capacity
  pub kept : output_of j.chunks ≡ drop j.start h

pub length-chunk_output : (c : OutputChunk) → length (chunk_output c) ≡ length c.bytes
length-chunk_output c = length-map (λ b. (c.stream, b)) c.bytes

-- Dropping within the first chunk, and past it.
pub drop-chunk_output :
    (n : ℕ) (c : OutputChunk) (r : Output)
    → n ≤ length c.bytes
    → drop n (chunk_output c ++ r) ≡ chunk_output (record c { bytes = drop n c.bytes }) ++ r
drop-chunk_output n c r h =
    drop-append n (chunk_output c) r
    ∙ ap₂ ◌++◌ (sym (map-drop (λ b. (c.stream, b)) n c.bytes))
        (drop_zero (n - length (chunk_output c)) r (omega (arith, length-chunk_output c)))

pub drop_past_chunk :
    (n : ℕ) (c : OutputChunk) (r : Output)
    → length c.bytes ≤ n
    → drop n (chunk_output c ++ r) ≡ drop (n - length c.bytes) r
drop_past_chunk n c r h =
    drop-append n (chunk_output c) r
    ∙ ap₂ ◌++◌ (drop_all n (chunk_output c) (omega (arith, length-chunk_output c))) (
        drop_congr (n - length (chunk_output c)) (n - length c.bytes) r
          (omega (arith, length-chunk_output c)))

data Position (start target len : ℕ) : Type 0 where
  reached : target ≤ start → Position start target len
  inside : start < target → target < start + len → Position start target len
  beyond : start < target → start + len ≤ target → Position start target len

position : (start target len : ℕ) → Position start target len
position start target len = elim (dec_lt start target) [
  | no h ↦ reached (omega arith)
  | yes h ↦ elim (dec_lt target (start + len)) [
    | yes k ↦ inside h k
    | no k ↦ beyond h (omega arith)
  ]
]

abbrev Trims : ℕ → ℕ → List OutputChunk → Type 0
Trims target start chunks =
    (kept : List OutputChunk) × (trim target start chunks ≡ some (target, kept))
    × (output_of kept ≡ drop (target - start) (output_of chunks))

trim_beyond :
    (target start : ℕ) (c : OutputChunk) (rest : List OutputChunk)
    → start < target
    → start + length c.bytes ≤ target
    → Trims target (start + length c.bytes) rest
    → Trims target start (c ∷ rest)
unfolding trim
trim_beyond target start c rest lo hi (kept, runs, holds) =
    let e : min (target - start) (length c.bytes) ≡ length c.bytes = omega arith in
    (
      kept,
      rw e (ground arith),
      holds
          ∙ drop_congr (target - (start + length c.bytes)) (target - start - length c.bytes)
              (output_of rest) (omega arith)
          ∙ sym (drop_past_chunk (target - start) c (output_of rest) (omega arith)),
    )

trim_inside :
    (target start : ℕ) (c : OutputChunk) (rest : List OutputChunk)
    → start < target
    → target < start + length c.bytes
    → Trims target start (c ∷ rest)
unfolding trim
trim_inside target start c rest lo hi =
    let e : min (target - start) (length c.bytes) ≡ target - start = omega arith in
    (
      record c { bytes = drop (target - start) c.bytes } ∷ rest,
      rw e (ground arith),
      sym (drop-chunk_output (target - start) c (output_of rest) (omega arith)),
    )

-- The loop stops exactly at the target, and never runs out of chunks.
trim_lem :
    (target start : ℕ) (chunks : List OutputChunk)
    → start ≤ target
    → target ≤ start + length (output_of chunks)
    → Trims target start chunks
unfolding trim
trim_lem target start [] lo hi = ([], ground arith, sym (drop_nil (target - start)))
trim_lem target start (c ∷ rest) lo hi = elim (position start target (length c.bytes)) [
  | reached h ↦ (
    c ∷ rest,
    ground arith,
    sym (drop_zero (target - start) (output_of (c ∷ rest)) (omega arith)),
  )
  | inside a b ↦ trim_inside target start c rest a b
  | beyond a b ↦ trim_beyond target start c rest a b (
      trim_lem target (start + length c.bytes) rest b
        (omega (arith, length-append (chunk_output c) (output_of rest), length-chunk_output c)))
]

-- The empty journal stands for the empty history.
pub new-Represents : (capacity : ℕ) → Represents (new capacity) []
unfolding new
new-Represents capacity = record { total = refl; window = omega arith; kept = refl }

pub output_of-append :
    (cs : List OutputChunk) (c : OutputChunk)
    → output_of (cs ++ c ∷ []) ≡ output_of cs ++ chunk_output c
output_of-append cs c =
    flat_map-append chunk_output cs (c ∷ [])
    ∙ ap (◌++◌ (output_of cs)) (append-nil (chunk_output c))

retained_append :
    (j : Journal) (h new_output : Output)
    → Represents j h
    → output_of j.chunks ++ new_output ≡ drop j.start (h ++ new_output)
retained_append j h new_output r =
    ap (λ o. o ++ new_output) r.kept
    ∙ sym (drop-append_le j.start h new_output (omega (arith, r.window, r.total)))

-- An append never panics, and the journal then stands for the history with the new bytes at its end.
pub append-Represents :
    (j : Journal) (h : Output) (stream : OutputStream) (bytes : Bytes)
    → Represents j h
    → (j' : Journal) × (append j stream bytes ≡ some j')
      × Represents j' (h ++ map (λ b. (stream, b)) bytes)
      × (j'.capacity ≡ j.capacity)
      × (j'.revision ≡ j.revision)
unfolding append
append-Represents j h stream bytes r =
    let chunk : OutputChunk = record { stream = stream; bytes = bytes } in
    let end : ℕ = j.end + length bytes in
    let (kept, runs, holds) =
      trim_lem (end - j.capacity) j.start (j.chunks ++ chunk ∷ []) (omega (arith, r.window)) (
        omega (
          arith,
          r.window,
          r.total,
          ap length r.kept,
          length-drop j.start h,
          ap length (output_of-append j.chunks chunk),
          length-append (output_of j.chunks) (chunk_output chunk),
          length-chunk_output chunk,
        )) in
    (
      record j { chunks = kept; start = end - j.capacity; end = end },
      rw (runs, append),
      record {
        total =
            omega (arith, r.total, length-append h (chunk_output chunk), length-chunk_output chunk);
        window = refl;
        kept =
            holds
            ∙ ap (drop (end - j.capacity - j.start))
                (output_of-append j.chunks chunk ∙ retained_append j h (chunk_output chunk) r)
            ∙ drop-drop (end - j.capacity - j.start) j.start (h ++ chunk_output chunk)
            ∙ drop_congr (j.start + (end - j.capacity - j.start)) (end - j.capacity)
                (h ++ chunk_output chunk) (omega (arith, r.window));
      },
      refl,
      refl,
    )
