-- ===== src/Core/Spool/Written.antt =====
-- The output file: its bytes are a prefix of the captured output, all of it unless an error is
-- recorded, and the hash and the size are those of the file.
use execution_provider.Prelude.{
  ℕ, zero, suc, ◌+◌, ◌-◌, ◌≤◌, ◌≡◌, refl, sym, ap, ◌∙◌, ◌⊎◌, inl, inr, Bool, true, false, Option,
  none, some, String, [], ◌∷◌, ◌++◌, map, min, arith, length, take, drop, drop_nil, drop_congr,
  is_some, length-append, length-take, length-drop, take-append-drop, append_assoc, append-nil,
  map-append, length-map, if◌then◌else◌,
}
use execution_provider.Core.Config.{u64_max}
use execution_provider.Core.Types.{Uuid, Bytes, Time, OutputStream, Output}
use execution_provider.Core.Spool.{
  OutputSpool, WriteOutcome, wrote, failed, fail, create, write_remaining, append, finalize,
  output_file,
}
use execution_provider.Core.Journal.{output_of}
use execution_provider.Core.Spool.Tail.{KeepsTail, append_tail-KeepsTail}

-- The operating system never reports more bytes as written than it was given.
abbrev pub IsHonest : (Bytes → WriteOutcome) → Type 0
IsHonest disk = (r : Bytes) (n : ℕ) → disk r ≡ wrote n → n ≤ length r

-- What writing `remaining` does to a spool whose file is open.
record Writes (s : OutputSpool) (remaining : Bytes) (t : OutputSpool) : Type 0 where
  hash : t.hashed ≡ t.written
  size : t.size_bytes ≡ length t.written
  part : (rest : Bytes) × (s.written ++ remaining ≡ t.written ++ rest)
  whole :
      ((t.file ≡ true) × (t.error ≡ none) × (t.written ≡ s.written ++ remaining))
      ⊎ ((t.file ≡ false) × (is_some t.error ≡ true))
  same_tail : t.tail ≡ s.tail
  same_count : t.tail_bytes ≡ s.tail_bytes
  same_capacity : t.tail_capacity ≡ s.tail_capacity
  same_captured : t.captured_bytes ≡ s.captured_bytes

-- The spool is open, with nothing wrong so far.
record IsOpen (s : OutputSpool) : Type 0 where
  file : s.file ≡ true
  error : s.error ≡ none
  hash : s.hashed ≡ s.written
  size : s.size_bytes ≡ length s.written

fail-Writes :
    (s : OutputSpool) (remaining : Bytes) (message : String)
    → IsOpen s
    → Writes s remaining (fail s message)
fail-Writes s remaining message o = record {
  hash = o.hash;
  size = o.size;
  part = (remaining, refl);
  whole = inr (refl, ground (arith, o.error));
  same_tail = refl;
  same_count = refl;
  same_capacity = refl;
  same_captured = refl;
}

nothing-Writes : (s : OutputSpool) → IsOpen s → Writes s [] s
nothing-Writes s o = record {
  hash = o.hash;
  size = o.size;
  part = ([], refl);
  whole = inl (o.file, o.error, sym (append-nil s.written));
  same_tail = refl;
  same_count = refl;
  same_capacity = refl;
  same_captured = refl;
}

abbrev wrote_some : OutputSpool → Bytes → ℕ → OutputSpool
wrote_some s remaining n = record s {
  hashed = s.hashed ++ take n remaining;
  written = s.written ++ take n remaining;
  size_bytes = s.size_bytes + n;
}

wrote_some-IsOpen :
    (s : OutputSpool) (remaining : Bytes) (n : ℕ)
    → IsOpen s
    → n ≤ length remaining
    → IsOpen (wrote_some s remaining n)
wrote_some-IsOpen s remaining n o h = record {
  file = o.file;
  error = o.error;
  hash = ap (λ w. w ++ take n remaining) o.hash;
  size = omega (arith, o.size, length-append s.written (take n remaining), length-take n remaining);
}

rest_of :
    (s : OutputSpool) (remaining : Bytes) (n : ℕ)
    → (s.written ++ take n remaining) ++ drop n remaining ≡ s.written ++ remaining
rest_of s remaining n =
    append_assoc s.written (take n remaining) (drop n remaining)
    ∙ ap (◌++◌ s.written) (take-append-drop n remaining)

next-Writes :
    (s t : OutputSpool) (remaining : Bytes) (n : ℕ)
    → Writes (wrote_some s remaining n) (drop n remaining) t
    → Writes s remaining t
next-Writes s t remaining n w = record {
  hash = w.hash;
  size = w.size;
  part = (w.part.0, sym (rest_of s remaining n) ∙ w.part.1);
  whole = ground (arith, w.whole, rest_of s remaining n);
  same_tail = w.same_tail;
  same_count = w.same_count;
  same_capacity = w.same_capacity;
  same_captured = w.same_captured;
}

data Outcome (o : WriteOutcome) : Type 0 where
  stopped : o ≡ wrote zero → Outcome o
  went_on : (n : ℕ) → o ≡ wrote (suc n) → Outcome o
  broke : (message : String) → o ≡ failed message → Outcome o

outcome : (o : WriteOutcome) → Outcome o
outcome (wrote zero) = stopped refl
outcome (wrote (suc n)) = went_on n refl
outcome (failed message) = broke message refl

write_remaining-Writes :
    (disk : Bytes → WriteOutcome) (fuel : ℕ) (remaining : Bytes) (s : OutputSpool)
    → IsHonest disk
    → length remaining ≤ fuel
    → IsOpen s
    → Writes s remaining (write_remaining disk fuel remaining s)
unfolding write_remaining
write_remaining-Writes disk zero [] s honest enough o = nothing-Writes s o
write_remaining-Writes disk zero (b ∷ bs) s honest enough o = absurd (omega arith)
write_remaining-Writes disk (suc fuel) [] s honest enough o = nothing-Writes s o
write_remaining-Writes disk (suc fuel) (b ∷ bs) s honest enough o = elim (outcome (disk (b ∷ bs))) [
  | stopped e ↦ rw (e, write_remaining) (fail-Writes s (b ∷ bs) _ o)
  | broke message e ↦ rw (e, write_remaining) (fail-Writes s (b ∷ bs) message o)
  | went_on n e ↦
      rw (e, write_remaining)
        (next-Writes s _ (b ∷ bs) (suc n) (
          write_remaining-Writes disk fuel (drop n bs) (wrote_some s (b ∷ bs) (suc n)) honest
            (omega (arith, length-drop n bs))
            (wrote_some-IsOpen s (b ∷ bs) (suc n) o (honest (b ∷ bs) (suc n) e))))
]

-- The bytes of a history, without their streams.
abbrev pub payload : Output → Bytes
payload h = map (λ p. p.1) h

-- A spool that has captured the history `h` and is not finalized yet.
pub record Captures (s : OutputSpool) (h : Output) : Type 0 where
  pub tail : KeepsTail s h
  pub captured : s.captured_bytes ≡ min (length h) u64_max
  pub hash : s.hashed ≡ s.written
  pub size : s.size_bytes ≡ length s.written
  pub part : (rest : Bytes) × (payload h ≡ s.written ++ rest)
  pub whole :
      ((s.file ≡ true) × (s.error ≡ none) × (s.written ≡ payload h))
      ⊎ ((s.file ≡ false) × (is_some s.error ≡ true))

pub create-Captures :
    (artifact_id : Uuid) (path : String) (capacity : ℕ)
    → Captures (create artifact_id path capacity) []
unfolding create
create-Captures artifact_id path capacity = record {
  tail = record { newest = sym (drop_nil (0 - capacity)); counted = omega arith };
  captured = omega arith;
  hash = refl;
  size = refl;
  part = ([], refl);
  whole = inl (refl, refl, refl);
}

payload-chunk :
    (stream : OutputStream) (bytes : Bytes) → payload (map (λ b. (stream, b)) bytes) ≡ bytes
payload-chunk stream [] = refl
payload-chunk stream (b ∷ bs) = ap (◌∷◌ b) (payload-chunk stream bs)

payload-append :
    (h : Output) (stream : OutputStream) (bytes : Bytes)
    → payload (h ++ map (λ b. (stream, b)) bytes) ≡ payload h ++ bytes
payload-append h stream bytes =
    map-append (λ (p : OutputStream × ℕ). p.1) h (map (λ b. (stream, b)) bytes)
    ∙ ap (◌++◌ (payload h)) (payload-chunk stream bytes)

captured_more : (n m : ℕ) → min (min n u64_max + m) u64_max ≡ min (n + m) u64_max
captured_more n m = omega arith

KeepsTail-same :
    (s t : OutputSpool) (h : Output)
    → t.tail ≡ s.tail
    → t.tail_bytes ≡ s.tail_bytes
    → t.tail_capacity ≡ s.tail_capacity
    → KeepsTail s h
    → KeepsTail t h
KeepsTail-same s t h a b c k = record {
  newest =
      ap output_of a
      ∙ k.newest
      ∙ drop_congr (length h - s.tail_capacity) (length h - t.tail_capacity) h (omega arith);
  counted = omega (arith, k.counted);
}

abbrev flushed : (Bytes → WriteOutcome) → OutputSpool → Bytes → OutputSpool
unfolding write_remaining
flushed disk s bytes = if s.file then write_remaining disk (length bytes) bytes s else s

-- What the file's part of a spool owes to the history `h` that it has captured so far.
record Owes (s : OutputSpool) (h : Output) : Type 0 where
  hash : s.hashed ≡ s.written
  size : s.size_bytes ≡ length s.written
  part : (rest : Bytes) × (payload h ≡ s.written ++ rest)
  whole :
      ((s.file ≡ true) × (s.error ≡ none) × (s.written ≡ payload h))
      ⊎ ((s.file ≡ false) × (is_some s.error ≡ true))

flushed-Captures :
    (disk : Bytes → WriteOutcome) (s : OutputSpool) (h : Output) (stream : OutputStream)
    (bytes : Bytes)
    → IsHonest disk
    → Owes s h
    → KeepsTail s (h ++ map (λ b. (stream, b)) bytes)
    → s.captured_bytes ≡ min (length (h ++ map (λ b. (stream, b)) bytes)) u64_max
    → Captures (flushed disk s bytes) (h ++ map (λ b. (stream, b)) bytes)
unfolding write_remaining
flushed-Captures disk s h stream bytes honest o k captured = elim o.whole [
  | inr (shut, wrong) ↦ simp shut (record {
    tail = k;
    captured = captured;
    hash = o.hash;
    size = o.size;
    part = (
      o.part.0 ++ bytes,
      payload-append h stream bytes
          ∙ ap (λ w. w ++ bytes) o.part.1
          ∙ append_assoc s.written o.part.0 bytes,
    );
    whole = inr (shut, wrong);
  })
  | inl (opened, fine, all) ↦
      let w =
        write_remaining-Writes disk (length bytes) bytes s honest (omega arith)
          (record { file = opened; error = fine; hash = o.hash; size = o.size }) in
      let grown : payload (h ++ map (λ b. (stream, b)) bytes) ≡ s.written ++ bytes =
        payload-append h stream bytes ∙ ap (λ p. p ++ bytes) (sym all) in
      simp opened (record {
        tail = KeepsTail-same s _ _ w.same_tail w.same_count w.same_capacity k;
        captured = w.same_captured ∙ captured;
        hash = w.hash;
        size = w.size;
        part = (w.part.0, grown ∙ w.part.1);
        whole = ground (arith, w.whole, grown);
      })
]

-- Output that arrives is added to the history: the tail keeps its newest part, and the file, its hash
-- and its size stay a prefix of the captured bytes, complete as long as no error is recorded. The
-- append never panics. It is assumed that no write reports more bytes than it was given.
pub append-Captures :
    (disk : Bytes → WriteOutcome) (s : OutputSpool) (h : Output) (stream : OutputStream)
    (bytes : Bytes)
    → ((r : Bytes) (n : ℕ) → disk r ≡ wrote n → n ≤ length r)
    → Captures s h
    → (t : OutputSpool) × (append disk s stream bytes ≡ some t)
      × Captures t (h ++ map (λ b. (stream, b)) bytes)
unfolding append
append-Captures disk s h stream bytes honest c =
    let counted : OutputSpool = record s {
      captured_bytes = min (s.captured_bytes + length bytes) u64_max;
    } in
    let (kept, count, runs, k) =
      append_tail-KeepsTail counted h stream bytes
        (KeepsTail-same s counted h refl refl refl c.tail) in
    let grown : OutputSpool = record counted { tail = kept; tail_bytes = count } in
    (
      flushed disk grown bytes,
      rw (runs, append) refl,
      flushed-Captures disk grown h stream bytes honest
          (record { hash = c.hash; size = c.size; part = c.part; whole = c.whole }) k
          (omega (
            arith,
            c.captured,
            captured_more (length h) (length bytes),
            length-append h (map (λ b. (stream, b)) bytes),
            length-map {B = OutputStream × ℕ} (λ b. (stream, b)) bytes,
          )),
    )

-- A finalized file that is reported complete holds exactly the captured bytes, under their digest and
-- their number.
pub output_file_complete :
    (digest : Bytes → String) (flushed_error : Option String) (s : OutputSpool) (h : Output)
    (complete : Bool) (expires_at : Time)
    → Captures s h
    → (output_file (finalize digest flushed_error s) complete expires_at).complete ≡ true
    → let t = finalize digest flushed_error s in
      let f = output_file t complete expires_at in
      (t.written ≡ payload h)
      × (f.sha256 ≡ digest (payload h))
      × (f.size_bytes ≡ length (payload h))
      × (flushed_error ≡ none)
      × (complete ≡ true)
unfolding finalize output_file
output_file_complete digest flushed_error s h complete expires_at c e =
    ground (arith, c.whole, c.hash, c.size)
