-- ===== src/Core/Patch/Parse/Roundtrip.antt =====
-- A written patch is read as the patch it was written from.
use execution_provider.Prelude.{
  ℕ, zero, suc, ◌≤◌, ◌≡◌, refl, sym, ap, subst, ◌∙◌, true, false, Option, none, some, List, [], ◌∷◌,
  ◌++◌, append_assoc, flat_map, is_empty, length, arith, length-append,
}
use execution_provider.Prelude.Text.{Text, codes, init, split_lines, trim, strip_prefix}
use execution_provider.Core.Errors.{Result, ok, err}
use execution_provider.Core.Patch.{Section, Chunk}
use execution_provider.Core.Patch.Parse.{
  read_move, read_update, read_section, read_sections, directive, cons_section, no_chunks,
}
use execution_provider.Core.Patch.Parse.Print.{
  prefixed, anchor_line, chunk_lines, move_lines, section_lines, IsMove, AllChange, IsWritable,
  AllWritable,
}
use execution_provider.Core.Patch.Parse.Lines.{
  trim_end-append, at_directive, directive-add, directive-delete, directive-update,
  read_added-prefixed, read_chunks,
}

no_move :
    (c : Chunk) (rest : List Text)
    → read_move (chunk_lines c ++ rest) ≡ (none, chunk_lines c ++ rest)
unfolding read_move
no_move c rest = go c.anchor _
  where
    go :
        (anchor : Option Text) (more : List Text)
        → read_move (anchor_line anchor ∷ more) ≡ (none, anchor_line anchor ∷ more)
    go none more = refl
    go (some anchor) more = refl

read_move-lines :
    (move_to : Option Text) (chunks : List Chunk) (rest : List Text)
    → IsMove move_to
    → is_empty chunks ≡ false
    → read_move (move_lines move_to ++ flat_map chunk_lines chunks ++ rest)
      ≡ (move_to, flat_map chunk_lines chunks ++ rest)
unfolding read_move
read_move-lines move_to [] rest h full = absurd (ground arith)
read_move-lines none (c ∷ cs) rest h full =
    ap read_move (append_assoc (chunk_lines c) (flat_map chunk_lines cs) rest)
    ∙ no_move c (flat_map chunk_lines cs ++ rest)
    ∙ ap (λ ls. (none, ls)) (sym (append_assoc (chunk_lines c) (flat_map chunk_lines cs) rest))
read_move-lines (some to) (c ∷ cs) rest h full =
    ap
      (λ t. elim (strip_prefix (codes "*** Move to: ") t) as (λ o. Option Text × List Text) [
        | some to ↦ (some to, flat_map chunk_lines (c ∷ cs) ++ rest)
        | none ↦ (none, (codes "*** Move to: " ++ to) ∷ (flat_map chunk_lines (c ∷ cs) ++ rest))
      ])
      (trim_end-append (codes "*** Move to: ") to h)

read_update-lines :
    (path : Text) (move_to : Option Text) (chunks : List Chunk) (rest : List Text)
    → IsMove move_to
    → is_empty chunks ≡ false
    → AllChange chunks
    → at_directive rest ≡ true
    → read_update path (move_lines move_to ++ flat_map chunk_lines chunks ++ rest)
      ≡ ok (Section.update path move_to chunks, rest)
unfolding read_update
read_update-lines path move_to chunks rest h full change stops =
    let (end, is, all_read) = read_chunks [] no_chunks chunks rest (refl, refl) change stops in
    let moved = read_move-lines move_to chunks rest h full in rw (moved, is, all_read, full) refl

-- How the lines of a section are read, with whatever follows.
record Reads (s : Section) (rest : List Text) : Type 0 where
  head : Text
  body : List Text
  lines_of : section_lines s ≡ head ∷ body
  is_read : read_section (directive (trim head)) (body ++ rest) ≡ ok (s, rest)

section-Reads :
    (s : Section) (rest : List Text) → IsWritable s → at_directive rest ≡ true → Reads s rest
unfolding read_section
section-Reads (Section.add path content) rest (named, whole) stops = record {
  head = codes "*** Add File: " ++ path;
  body = prefixed (codes "+") (init (split_lines content));
  lines_of = refl;
  is_read =
      rw
        (
          directive-add path named,
          read_added-prefixed (init (split_lines content)) rest stops,
          whole,
        )
        refl;
}
section-Reads (Section.delete path) rest named stops = record {
  head = codes "*** Delete File: " ++ path;
  body = [];
  lines_of = refl;
  is_read = rw (directive-delete path named) refl;
}
section-Reads (Section.update path move_to chunks) rest (named, h, full, change) stops = record {
  head = codes "*** Update File: " ++ path;
  body = move_lines move_to ++ flat_map chunk_lines chunks;
  lines_of = refl;
  is_read =
      rw (directive-update path named)
        (read_update-lines path move_to chunks rest h full change stops);
}
section-Reads (Section.replace file) rest h stops = absurd h

sections-at_directive :
    (sections : List Section)
    → AllWritable sections
    → at_directive (flat_map section_lines sections) ≡ true
sections-at_directive [] h = refl
sections-at_directive (Section.add path content ∷ rest) h = refl
sections-at_directive (Section.delete path ∷ rest) h = refl
sections-at_directive (Section.update path move_to chunks ∷ rest) h = refl
sections-at_directive (Section.replace file ∷ rest) h = absurd h.0

read_sections-step :
    (fuel : ℕ) (s : Section) (ss : List Section) (rest : List Text) (r : Reads s rest)
    → read_sections fuel rest ≡ some (ok ss)
    → read_sections (suc fuel) (r.head ∷ (r.body ++ rest)) ≡ some (ok (s ∷ ss))
unfolding read_sections
read_sections-step fuel s ss rest r later =
    ap
      (λ q. elim q as (λ o. Option (Result (List Section))) [
        | err e ↦ some (err e)
        | ok (section, left) ↦ cons_section section (read_sections fuel left)
      ])
      r.is_read
    ∙ ap (cons_section s) later

pub read_sections-lines :
    (fuel : ℕ) (sections : List Section)
    → AllWritable sections
    → length (flat_map section_lines sections) ≤ fuel
    → read_sections fuel (flat_map section_lines sections) ≡ some (ok sections)
unfolding read_sections
read_sections-lines fuel [] h le = refl
read_sections-lines fuel (s ∷ ss) (h, hs) le =
    let later = flat_map section_lines ss in
    let r = section-Reads s later h (sections-at_directive ss hs) in
    let all_lines : flat_map section_lines (s ∷ ss) ≡ r.head ∷ (r.body ++ later) =
      ap (λ ls. ls ++ later) r.lines_of in
    go fuel r all_lines (subst (λ ls. length ls ≤ fuel) all_lines le)
      (λ f. read_sections-lines f ss hs)
  where
    go :
        (fuel : ℕ) (r : Reads s (flat_map section_lines ss))
        → flat_map section_lines (s ∷ ss) ≡ r.head ∷ (r.body ++ flat_map section_lines ss)
        → length (r.head ∷ (r.body ++ flat_map section_lines ss)) ≤ fuel
        → ((f : ℕ)
            → length (flat_map section_lines ss) ≤ f
            → read_sections f (flat_map section_lines ss) ≡ some (ok ss))
        → read_sections fuel (flat_map section_lines (s ∷ ss)) ≡ some (ok (s ∷ ss))
    go zero r all_lines le later = absurd (omega arith)
    go (suc f) r all_lines le later =
        ap (read_sections (suc f)) all_lines
        ∙ read_sections-step f s ss (flat_map section_lines ss) r
            (later f (omega (arith, length-append r.body (flat_map section_lines ss))))
