-- ===== src/Supervisor/Framing/Tests.antt =====
-- A short frame on a stream that goes on.
use execution_provider.Prelude.{◌≡◌, refl, [], ◌∷◌}
use execution_provider.Supervisor.Framing.{frame, refused, FrameError, read_frame, write_frame}
use execution_provider.Supervisor.Framing.Lines.{read-write_frame}

written_line : write_frame (7 ∷ 8 ∷ []) ≡ frame (7 ∷ 8 ∷ 10 ∷ [])
unfolding write_frame
written_line = refl

nothing_sent : read_frame [] ≡ (refused FrameError.unexpected_eof, [])
unfolding read_frame
nothing_sent = refl

read-write_frame_example : read_frame (7 ∷ 8 ∷ 10 ∷ 9 ∷ []) ≡ (frame (7 ∷ 8 ∷ 10 ∷ []), 9 ∷ [])
read-write_frame_example =
    read-write_frame (7 ∷ 8 ∷ []) (7 ∷ 8 ∷ 10 ∷ []) (9 ∷ []) refl written_line
