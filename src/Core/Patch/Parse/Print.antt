-- ===== src/Core/Patch/Parse/Print.antt =====
-- The written form of a patch, which packages/process-execution-core/src/filesystem/patch.rs reads:
-- one directive for each file, the lines of an added file behind `+`, and for each hunk its anchor, its
-- old lines behind `-`, its new lines behind `+` and a mark if it ends the file.
use execution_provider.Prelude.{
  Bool, true, false, ◌≡◌, not, ◌||◌, Option, none, some, List, [], ◌∷◌, ◌++◌, map, flat_map,
  is_empty,
}
use execution_provider.Prelude.Text.{Text, codes, newline, split_lines, init, trim_end}
use execution_provider.Core.Patch.{Section, Chunk}

-- Every line with its newline.
abbrev pub unlines : List Text → Text
unlines [] = []
unlines (line ∷ rest) = line ++ newline ∷ unlines rest

abbrev pub prefixed : Text → List Text → List Text
prefixed mark lines = map (λ line. mark ++ line) lines

abbrev pub anchor_line : Option Text → Text
anchor_line none = codes "@@"
anchor_line (some anchor) = codes "@@ " ++ anchor

abbrev pub eof_lines : Bool → List Text
eof_lines false = []
eof_lines true = codes "*** End of File" ∷ []

abbrev pub chunk_lines : Chunk → List Text
chunk_lines c =
    anchor_line c.anchor
    ∷ (prefixed (codes "-") c.old ++ (prefixed (codes "+") c.new ++ eof_lines c.eof))

abbrev pub move_lines : Option Text → List Text
move_lines none = []
move_lines (some to) = (codes "*** Move to: " ++ to) ∷ []

abbrev pub section_lines : Section → List Text
section_lines (Section.add path content) =
    (codes "*** Add File: " ++ path) ∷ prefixed (codes "+") (init (split_lines content))
section_lines (Section.delete path) = (codes "*** Delete File: " ++ path) ∷ []
section_lines (Section.update path move_to chunks) =
    (codes "*** Update File: " ++ path) ∷ (move_lines move_to ++ flat_map chunk_lines chunks)
section_lines (Section.replace file) = []

unfoldable pub print_codex : List Section → Text
print_codex sections =
    unlines (codes "*** Begin Patch" ∷ flat_map section_lines sections) ++ codes "*** End Patch"

-- A path that a directive can name: not empty, and no white space at its end.
abbrev pub IsPath : Text → Type 0
IsPath path = (is_empty path ≡ false) × (trim_end path ≡ path)

abbrev pub IsMove : Option Text → Type 0
IsMove none = Unit
IsMove (some to) = IsPath to

abbrev pub has_change : Chunk → Bool
has_change c = not (is_empty c.old) || not (is_empty c.new)

abbrev pub AllChange : List Chunk → Type 0
AllChange [] = Unit
AllChange (c ∷ cs) = (has_change c ≡ true) × AllChange cs

-- A section that the format can express: a file is added with whole lines, an update has a hunk, and
-- each hunk changes something.
abbrev pub IsWritable : Section → Type 0
IsWritable (Section.add path content) =
    IsPath path × (unlines (init (split_lines content)) ≡ content)
IsWritable (Section.delete path) = IsPath path
IsWritable (Section.update path move_to chunks) =
    IsPath path × IsMove move_to × (is_empty chunks ≡ false) × AllChange chunks
IsWritable (Section.replace file) = ⊥

abbrev pub AllWritable : List Section → Type 0
AllWritable [] = Unit
AllWritable (s ∷ ss) = IsWritable s × AllWritable ss
