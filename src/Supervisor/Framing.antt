-- ===== src/Supervisor/Framing.antt =====
-- apps/process-execution/src/framing.rs: frames of one line on a byte stream. Reading takes from the
-- bytes that the peer has sent before it closed the stream; flushing and failures of the stream itself
-- are left out.
pub mod Lines
mod Tests
use execution_provider.Prelude.{
  ℕ, zero, suc, ◌+◌, Bool, List, [], ◌∷◌, ◌++◌, eqb, ltb, leb, if◌then◌else◌, is_empty, length,
}
use execution_provider.Core.Types.{Bytes}
use execution_provider.Protocol.Limits.{max_frame_bytes}

pub data FrameError : Type 0 where
  unexpected_eof invalid_data : FrameError

pub data Framed (A : Type 0) : Type 0 where
  frame : A → Framed A
  refused : FrameError → Framed A

abbrev pub newline : ℕ
newline = 10

-- `take(limit).read_until(b'\n')`: the bytes read and those left in the stream.
read_until : ℕ → Bytes → Bytes × Bytes
read_until zero input = ([], input)
read_until (suc limit) [] = ([], [])
read_until (suc limit) (b ∷ input) =
    let (line, rest) = read_until limit input in
    if eqb b newline then (b ∷ [], input) else (b ∷ line, rest)

unfoldable pub validate_frame : Bytes → Framed (Unit {0})
validate_frame bytes =
    if is_empty bytes
    then refused FrameError.unexpected_eof
    else if ltb max_frame_bytes (length bytes)
    then refused FrameError.invalid_data
    else frame tt

abbrev validated : Framed (Unit {0}) → Bytes → Framed Bytes
validated (frame valid) bytes = frame bytes
validated (refused e) bytes = refused e

unfoldable pub read_frame : Bytes → Framed Bytes × Bytes
unfolding read_until validate_frame
read_frame input =
    let (bytes, rest) = read_until (max_frame_bytes + 1) input in
    (validated (validate_frame bytes) bytes, rest)

-- `write`: the bytes that are sent.
unfoldable pub write_frame : Bytes → Framed Bytes
write_frame bytes =
    if leb max_frame_bytes (length bytes)
    then refused FrameError.invalid_data
    else frame (bytes ++ newline ∷ [])
