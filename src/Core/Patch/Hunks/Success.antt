-- ===== src/Core/Patch/Hunks/Success.antt =====
-- An update whose old lines are in the file succeeds.
use execution_provider.Prelude.{ℕ, false, none, List}
use execution_provider.Prelude.Text.{Text}
use execution_provider.Core.Patch.{Chunk}
use execution_provider.Core.Patch.Seek.{positions}
use execution_provider.Core.Patch.Seek.Search.{FirstAt}

-- A hunk without an anchor that may stand anywhere in the file.
abbrev pub plain_chunk : List Text → List Text → Chunk
plain_chunk old new = record { anchor = none; old = old; new = new; eof = false }

-- Among all positions of the file, the first at which the lines stand as they are.
abbrev FirstExact : List Text → List Text → ℕ → Type 0
FirstExact lines old i = FirstAt 0 lines old 0 (positions lines old 0 false) i
