-- ===== src/Supervisor/Framing/Lines.antt =====
-- What is written as a frame is read as that frame.
use execution_provider.Prelude.{
  ℕ, zero, suc, ◌+◌, ◌<◌, ◌≡◌, refl, ap, ◌∙◌, Bool, false, [], ◌∷◌, ◌++◌, any, eqb, is_empty,
  length, arith, length-append, append_assoc,
}
use execution_provider.Core.Types.{Bytes}
use execution_provider.Protocol.Limits.{max_frame_bytes}
use execution_provider.Supervisor.Framing.{
  frame, newline, read_until, validate_frame, validated, read_frame, write_frame,
}

abbrev pub has_newline : Bytes → Bool
has_newline bytes = any (λ b. eqb b newline) bytes

read_until-line :
    (limit : ℕ) (bytes rest : Bytes)
    → has_newline bytes ≡ false
    → length bytes < limit
    → read_until limit (bytes ++ newline ∷ rest) ≡ (bytes ++ newline ∷ [], rest)
unfolding read_until
read_until-line zero bytes rest plain fits = absurd (omega arith)
read_until-line (suc limit) [] rest plain fits = refl
read_until-line (suc limit) (b ∷ bytes) rest plain fits =
    ground (arith, read_until-line limit bytes rest)

not_empty : (bytes : Bytes) → is_empty (bytes ++ newline ∷ []) ≡ false
not_empty [] = refl
not_empty (b ∷ bytes) = refl

line-valid :
    (bytes : Bytes)
    → length bytes < max_frame_bytes
    → validate_frame (bytes ++ newline ∷ []) ≡ frame tt
unfolding validate_frame
line-valid bytes fits = ground (arith, not_empty bytes, length-append bytes (newline ∷ []))

-- A frame without a newline of its own that is written is read back as the same line, and the stream
-- goes on right behind it, whatever the peer sends next.
pub read-write_frame :
    (bytes sent rest : Bytes)
    → has_newline bytes ≡ false
    → write_frame bytes ≡ frame sent
    → read_frame (sent ++ rest) ≡ (frame (bytes ++ newline ∷ []), rest)
unfolding read_frame write_frame
read-write_frame bytes sent rest plain written =
    let fits : length bytes < max_frame_bytes = ground arith in
    let is : sent ≡ bytes ++ newline ∷ [] = ground arith in
    let line : read_until (max_frame_bytes + 1) (sent ++ rest) ≡ (bytes ++ newline ∷ [], rest) =
      ap (λ s. read_until (max_frame_bytes + 1) (s ++ rest)) is
      ∙ ap (read_until (max_frame_bytes + 1)) (append_assoc bytes (newline ∷ []) rest)
      ∙ read_until-line (max_frame_bytes + 1) bytes rest plain (omega arith) in
    ap (λ p. (validated (validate_frame p.0) p.0, p.1)) line
    ∙ ap (λ v. (validated v (bytes ++ newline ∷ []), rest)) (line-valid bytes fits)
