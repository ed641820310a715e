-- ===== src/Core/Spool/Tail.antt =====
-- The bounded tail of the output: what is kept of the history, and what a preview shows.
use native.Mathlib.Decide.{dec_lt}
use execution_provider.Prelude.{
  ℕ, zero, suc, ◌+◌, ◌-◌, ◌≤◌, ◌<◌, ◌≡◌, refl, sym, ap, ◌∙◌, inl, inr, true, false, some, List, [],
  ◌∷◌, ◌++◌, map, min, arith, leb, eqb, Bool-cases, is_empty, length, drop, length-append,
  length-drop, drop_all, drop_zero, drop_congr, drop-drop, drop_nil, drop-append_le,
}
use execution_provider.Core.Types.{Bytes, OutputChunk, OutputStream, Output}
use execution_provider.Core.Journal.{chunk_output, output_of}
use execution_provider.Core.Journal.Retention.{
  length-chunk_output, drop-chunk_output, drop_past_chunk, output_of-append,
}
use execution_provider.Core.Spool.{OutputSpool, trim_tail, append_tail, skip_chunks, preview}

-- The tail is the newest part of the history `h`, up to the capacity.
pub record KeepsTail (s : OutputSpool) (h : Output) : Type 0 where
  pub newest : output_of s.tail ≡ drop (length h - s.tail_capacity) h
  pub counted : s.tail_bytes ≡ min s.tail_capacity (length h)

is_empty-drop : (n : ℕ) (bs : Bytes) → n < length bs → is_empty (drop n bs) ≡ false
is_empty-drop zero (b ∷ bs) h = refl
is_empty-drop zero [] h = absurd (omega arith)
is_empty-drop (suc n) [] h = absurd (omega arith)
is_empty-drop (suc n) (b ∷ bs) h = is_empty-drop n bs (omega arith)

abbrev Trims : ℕ → ℕ → List OutputChunk → Type 0
Trims capacity bytes chunks =
    (kept : List OutputChunk) × (trim_tail capacity bytes chunks ≡ some (min bytes capacity, kept))
    × (output_of kept ≡ drop (bytes - capacity) (output_of chunks))

trim_inside :
    (capacity bytes : ℕ) (c : OutputChunk) (rest : List OutputChunk)
    → capacity < bytes
    → bytes < capacity + length c.bytes
    → Trims capacity bytes (c ∷ rest)
unfolding trim_tail
trim_inside capacity bytes c rest lo hi =
    let e : min (bytes - capacity) (length c.bytes) ≡ bytes - capacity = omega arith in
    (
      record c { bytes = drop (bytes - capacity) c.bytes } ∷ rest,
      rw (e, is_empty-drop (bytes - capacity) c.bytes (omega arith)) (ground arith),
      sym (drop-chunk_output (bytes - capacity) c (output_of rest) (omega arith)),
    )

trim_beyond :
    (capacity bytes : ℕ) (c : OutputChunk) (rest : List OutputChunk)
    → capacity < bytes
    → capacity + length c.bytes ≤ bytes
    → Trims capacity (bytes - length c.bytes) rest
    → Trims capacity bytes (c ∷ rest)
unfolding trim_tail
trim_beyond capacity bytes c rest lo hi (kept, runs, holds) =
    let e : min (bytes - capacity) (length c.bytes) ≡ length c.bytes = omega arith in
    let all : drop (length c.bytes) c.bytes ≡ [] =
      drop_all (length c.bytes) c.bytes (omega arith) in
    (
      kept,
      rw (e, all) (ground arith),
      holds
          ∙ drop_congr (bytes - length c.bytes - capacity) (bytes - capacity - length c.bytes)
              (output_of rest) (omega arith)
          ∙ sym (drop_past_chunk (bytes - capacity) c (output_of rest) (omega arith)),
    )

-- The loop never finds the tail empty, and leaves the newest bytes.
trim_tail_lem :
    (capacity bytes : ℕ) (chunks : List OutputChunk)
    → bytes ≡ length (output_of chunks)
    → Trims capacity bytes chunks
unfolding trim_tail
trim_tail_lem capacity bytes [] e = ([], ground arith, sym (drop_nil (bytes - capacity)))
trim_tail_lem capacity bytes (c ∷ rest) e = elim (dec_lt capacity bytes) [
  | no h ↦ (
    c ∷ rest,
    ground arith,
    sym (drop_zero (bytes - capacity) (output_of (c ∷ rest)) (omega arith)),
  )
  | yes h ↦ elim (dec_lt bytes (capacity + length c.bytes)) [
    | yes k ↦ trim_inside capacity bytes c rest h k
    | no k ↦ trim_beyond capacity bytes c rest h (omega arith) (
        trim_tail_lem capacity (bytes - length c.bytes) rest
          (omega (arith, length-append (chunk_output c) (output_of rest), length-chunk_output c)))
  ]
]

-- With no capacity the tail stays empty.
no_tail :
    (s : OutputSpool) (h new_output : Output)
    → KeepsTail s h
    → eqb s.tail_capacity 0 ≡ true
    → KeepsTail s (h ++ new_output)
no_tail s h new_output k e = record {
  newest =
      k.newest
      ∙ drop_all (length h - s.tail_capacity) h (ground arith)
      ∙ sym
          (drop_all (length (h ++ new_output) - s.tail_capacity) (h ++ new_output) (ground arith));
  counted = ground (arith, k.counted);
}

longer :
    (s : OutputSpool) (h : Output) (c : OutputChunk)
    → KeepsTail s h
    → output_of (s.tail ++ c ∷ []) ≡ drop (length h - s.tail_capacity) (h ++ chunk_output c)
longer s h c k =
    output_of-append s.tail c
    ∙ ap (λ o. o ++ chunk_output c) k.newest
    ∙ sym (drop-append_le (length h - s.tail_capacity) h (chunk_output c) (omega arith))

-- An append to the tail never panics, and keeps the newest bytes of the longer history.
pub append_tail-KeepsTail :
    (s : OutputSpool) (h : Output) (stream : OutputStream) (bytes : Bytes)
    → KeepsTail s h
    → (kept : List OutputChunk) × (count : ℕ) × (append_tail s stream bytes
        ≡ some (record s { tail = kept; tail_bytes = count }))
      × KeepsTail (record s { tail = kept; tail_bytes = count }) (h ++ map (λ b. (stream, b)) bytes)
unfolding append_tail
append_tail-KeepsTail s h stream bytes k = elim (Bool-cases (eqb s.tail_capacity 0)) [
  | inl e ↦ (s.tail, s.tail_bytes, rw e refl, no_tail s h (map (λ b. (stream, b)) bytes) k e)
  | inr e ↦
      let chunk : OutputChunk = record { stream = stream; bytes = bytes } in
      let (kept, runs, holds) =
        trim_tail_lem s.tail_capacity (s.tail_bytes + length bytes) (s.tail ++ chunk ∷ []) (
          omega (
            arith,
            k.counted,
            ap length (output_of-append s.tail chunk),
            ap length k.newest,
            length-append (output_of s.tail) (chunk_output chunk),
            length-chunk_output chunk,
            length-drop (length h - s.tail_capacity) h,
          )) in
      (
        kept,
        min (s.tail_bytes + length bytes) s.tail_capacity,
        rw (e, runs) refl,
        record {
          newest =
              holds
              ∙ ap (drop (s.tail_bytes + length bytes - s.tail_capacity)) (longer s h chunk k)
              ∙ drop-drop (s.tail_bytes + length bytes - s.tail_capacity)
                  (length h - s.tail_capacity) (h ++ chunk_output chunk)
              ∙ drop_congr
                  (length h - s.tail_capacity + (s.tail_bytes + length bytes - s.tail_capacity))
                  (length (h ++ chunk_output chunk) - s.tail_capacity) (h ++ chunk_output chunk)
                  (omega (
                    arith,
                    k.counted,
                    length-append h (chunk_output chunk),
                    length-chunk_output chunk,
                  ));
          counted =
              omega
                (arith, k.counted, length-append h (chunk_output chunk), length-chunk_output chunk);
        },
      )
]

skip_chunks_lem :
    (skip : ℕ) (chunks : List OutputChunk)
    → output_of (skip_chunks skip chunks) ≡ drop skip (output_of chunks)
unfolding skip_chunks
skip_chunks_lem skip [] = sym (drop_nil skip)
skip_chunks_lem skip (c ∷ rest) = elim (Bool-cases (leb (length c.bytes) skip)) [
  | inl e ↦ rw e (
      skip_chunks_lem (skip - length c.bytes) rest
      ∙ sym (drop_past_chunk skip c (output_of rest) (ground arith)))
  | inr e ↦ rw e (
      ap (◌++◌ (chunk_output (record c { bytes = drop skip c.bytes }))) (skip_chunks_lem 0 rest)
      ∙ sym (drop-chunk_output skip c (output_of rest) (ground arith)))
]

-- A preview is the newest part of the history, up to its limit and the tail's capacity.
pub preview_lem :
    (s : OutputSpool) (h : Output) (limit : ℕ)
    → KeepsTail s h
    → output_of (preview s limit) ≡ drop (length h - min limit s.tail_capacity) h
unfolding preview
preview_lem s h limit k =
    skip_chunks_lem (s.tail_bytes - limit) s.tail
    ∙ ap (drop (s.tail_bytes - limit)) k.newest
    ∙ drop-drop (s.tail_bytes - limit) (length h - s.tail_capacity) h
    ∙ drop_congr (length h - s.tail_capacity + (s.tail_bytes - limit))
        (length h - min limit s.tail_capacity) h (omega (arith, k.counted))
