-- ===== src/Core/Patch/Parse/Lines.antt =====
-- The lines of a written section are read as that section.
use execution_provider.Prelude.{
  ◌≡◌, refl, sym, ap, ap₂, ◌∙◌, Bool, true, false, Option, none, some, List, [], ◌∷◌, ◌++◌,
  append_assoc, append-nil, flat_map, is_empty, arith,
}
use execution_provider.Prelude.Text.{Text, codes, trim_end, trim, keep_end}
use execution_provider.Core.Errors.{ok}
use execution_provider.Core.Patch.{Chunk}
use execution_provider.Core.Patch.Parse.{
  read_added, read_update_lines, read_update_line, read_change, ChunkState, Directive, directive,
  ends_section, flushed, no_chunk,
}
use execution_provider.Core.Patch.Parse.Print.{
  unlines, prefixed, anchor_line, eof_lines, chunk_lines, IsPath, has_change, AllChange,
}

not_empty : (p path : Text) → is_empty path ≡ false → is_empty (p ++ path) ≡ false
not_empty [] path h = h
not_empty (c ∷ p) path h = refl

pub trim_end-append : (p path : Text) → IsPath path → trim_end (p ++ path) ≡ p ++ path
trim_end-append [] path (full, trimmed) = trimmed
trim_end-append (c ∷ p) path h =
    ap (keep_end c) (trim_end-append p path h) ∙ ground (arith, not_empty p path h.0)

-- Whether the lines are at their end or at the next directive.
abbrev pub at_directive : List Text → Bool
at_directive [] = true
at_directive (line ∷ rest) = ends_section line

pub directive-add :
    (path : Text)
    → IsPath path
    → directive (trim (codes "*** Add File: " ++ path)) ≡ Directive.add path
unfolding directive
directive-add path h = ap directive (trim_end-append (codes "*** Add File: ") path h)

pub directive-delete :
    (path : Text)
    → IsPath path
    → directive (trim (codes "*** Delete File: " ++ path)) ≡ Directive.delete path
unfolding directive
directive-delete path h = ap directive (trim_end-append (codes "*** Delete File: ") path h)

pub directive-update :
    (path : Text)
    → IsPath path
    → directive (trim (codes "*** Update File: " ++ path)) ≡ Directive.update path
unfolding directive
directive-update path h = ap directive (trim_end-append (codes "*** Update File: ") path h)

pub read_added-prefixed :
    (ls rest : List Text)
    → at_directive rest ≡ true
    → read_added (prefixed (codes "+") ls ++ rest) ≡ ok (unlines ls, rest)
unfolding read_added
read_added-prefixed [] [] h = refl
read_added-prefixed [] (line ∷ rest) h = ground arith
read_added-prefixed (l ∷ ls) rest h = rw (read_added-prefixed ls rest h) refl

-- The state in which a hunk is read.
abbrev reading : List Chunk → Option Text → List Text → List Text → Bool → ChunkState
reading chunks anchor old new eof = record {
  chunks = chunks;
  chunk = record { anchor = anchor; old = old; new = new; eof = eof };
  active = true;
}

read_old :
    (chunks : List Chunk) (anchor : Option Text) (old ls rest : List Text)
    → read_update_lines (reading chunks anchor old [] false) (prefixed (codes "-") ls ++ rest)
      ≡ read_update_lines (reading chunks anchor (old ++ ls) [] false) rest
unfolding read_update_lines read_update_line read_change
read_old chunks anchor old [] rest =
    ap (λ o. read_update_lines (reading chunks anchor o [] false) rest) (sym (append-nil old))
read_old chunks anchor old (l ∷ ls) rest =
    read_old chunks anchor (old ++ l ∷ []) ls rest
    ∙ ap (λ o. read_update_lines (reading chunks anchor o [] false) rest)
        (append_assoc old (l ∷ []) ls)

read_new :
    (chunks : List Chunk) (anchor : Option Text) (old new ls rest : List Text)
    → read_update_lines (reading chunks anchor old new false) (prefixed (codes "+") ls ++ rest)
      ≡ read_update_lines (reading chunks anchor old (new ++ ls) false) rest
unfolding read_update_lines read_update_line read_change
read_new chunks anchor old new [] rest =
    ap (λ o. read_update_lines (reading chunks anchor old o false) rest) (sym (append-nil new))
read_new chunks anchor old new (l ∷ ls) rest =
    ap
      (λ o.
        read_update_lines (reading chunks anchor o (new ++ l ∷ []) false)
          (prefixed (codes "+") ls ++ rest))
      (append-nil old)
    ∙ read_new chunks anchor old (new ++ l ∷ []) ls rest
    ∙ ap (λ o. read_update_lines (reading chunks anchor old o false) rest)
        (append_assoc new (l ∷ []) ls)

read_eof :
    (chunks : List Chunk) (anchor : Option Text) (old new : List Text) (eof : Bool)
    (rest : List Text)
    → read_update_lines (reading chunks anchor old new false) (eof_lines eof ++ rest)
      ≡ read_update_lines (reading chunks anchor old new eof) rest
unfolding read_update_lines read_update_line
read_eof chunks anchor old new false rest = refl
read_eof chunks anchor old new true rest = refl

-- A state between two hunks: flushed, it has these hunks and no other.
abbrev pub Between : List Chunk → ChunkState → Type 0
Between done s = ((flushed s).chunks ≡ done) × ((flushed s).chunk ≡ no_chunk)

read_anchor :
    (done : List Chunk) (s : ChunkState) (anchor : Option Text) (rest : List Text)
    → Between done s
    → read_update_lines s (anchor_line anchor ∷ rest)
      ≡ read_update_lines (reading done anchor [] [] false) rest
unfolding read_update_lines read_update_line
read_anchor done s none rest (chunks, fresh) =
    ap₂
      (λ cs c.
        read_update_lines
          (record { chunks = cs; chunk = record c { anchor = none }; active = true }) rest)
      chunks fresh
read_anchor done s (some anchor) rest (chunks, fresh) =
    ap₂
      (λ cs c.
        read_update_lines
          (record { chunks = cs; chunk = record c { anchor = some anchor }; active = true }) rest)
      chunks fresh

read_chunk :
    (done : List Chunk) (s : ChunkState) (c : Chunk) (rest : List Text)
    → Between done s
    → read_update_lines s (chunk_lines c ++ rest)
      ≡ read_update_lines (reading done c.anchor c.old c.new c.eof) rest
read_chunk done s c rest between =
    let old = prefixed (codes "-") c.old in
    let new = prefixed (codes "+") c.new in
    ap (λ ls. read_update_lines s (anchor_line c.anchor ∷ ls))
      (append_assoc old (new ++ eof_lines c.eof) rest
        ∙ ap (◌++◌ old) (append_assoc new (eof_lines c.eof) rest))
    ∙ read_anchor done s c.anchor (old ++ (new ++ (eof_lines c.eof ++ rest))) between
    ∙ read_old done c.anchor [] c.old (new ++ (eof_lines c.eof ++ rest))
    ∙ read_new done c.anchor c.old [] c.new (eof_lines c.eof ++ rest)
    ∙ read_eof done c.anchor c.old c.new c.eof rest

reading-Between :
    (done : List Chunk) (c : Chunk)
    → has_change c ≡ true
    → Between (done ++ c ∷ []) (reading done c.anchor c.old c.new c.eof)
reading-Between done c h = rw h (refl, refl)

pub read_chunks :
    (done : List Chunk) (s : ChunkState) (cs : List Chunk) (rest : List Text)
    → Between done s
    → AllChange cs
    → at_directive rest ≡ true
    → (end : ChunkState) × (read_update_lines s (flat_map chunk_lines cs ++ rest) ≡ ok (end, rest))
      × ((flushed end).chunks ≡ done ++ cs)
unfolding read_update_lines
read_chunks done s [] [] between h stops = (s, refl, between.0 ∙ sym (append-nil done))
read_chunks done s [] (line ∷ rest) between h stops =
    (s, ground arith, between.0 ∙ sym (append-nil done))
read_chunks done s (c ∷ cs) rest between (change, h) stops =
    let here = read_chunk done s c (flat_map chunk_lines cs ++ rest) between in
    let (end, later, all_read) =
      read_chunks (done ++ c ∷ []) (reading done c.anchor c.old c.new c.eof) cs rest
        (reading-Between done c change) h stops in
    (
      end,
      ap (read_update_lines s) (append_assoc (chunk_lines c) (flat_map chunk_lines cs) rest)
          ∙ here
          ∙ later,
      all_read ∙ append_assoc done (c ∷ []) cs,
    )
