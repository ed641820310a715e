-- ===== src/Core/Spool/Tests.antt =====
-- Runs of the output file on small inputs, and the theorems applied there.
use execution_provider.Prelude.{
  ℕ, ◌≤◌, ◌≡◌, refl, inl, true, false, Option, none, some, [], ◌∷◌, ◌++◌, min, arith, length,
  String,
}
use execution_provider.Core.Types.{Bytes, OutputStream, Output}
use execution_provider.Core.Spool.{
  OutputSpool, WriteOutcome, wrote, failed, create, append, finalize, preview, output_file,
}
use execution_provider.Core.Spool.Tail.{KeepsTail}
use execution_provider.Core.Spool.Written.{Captures, append-Captures, output_file_complete, payload}

-- A disk that takes one byte at a time.
abbrev one_byte : Bytes → WriteOutcome
one_byte bytes = wrote (min 1 (length bytes))

one_byte-honest : (r : Bytes) (n : ℕ) → one_byte r ≡ wrote n → n ≤ length r
one_byte-honest r n e = ground arith

-- A disk that takes two bytes of three, and is full then.
abbrev full_disk : Bytes → WriteOutcome
full_disk (a ∷ b ∷ c ∷ []) = wrote 2
full_disk _ = failed "no space left"

abbrev empty_spool : OutputSpool
empty_spool = record {
  artifact_id = 1;
  path = "out";
  file = true;
  hashed = [];
  written = [];
  sha256 = none;
  size_bytes = 0;
  captured_bytes = 0;
  tail = [];
  tail_bytes = 0;
  tail_capacity = 2;
  error = none;
}

abbrev history : Output
history = (OutputStream.stdout, 1) ∷ (OutputStream.stdout, 2) ∷ (OutputStream.stdout, 3) ∷ []

abbrev spool : OutputSpool
spool = record empty_spool {
  hashed = 1 ∷ 2 ∷ 3 ∷ [];
  written = 1 ∷ 2 ∷ 3 ∷ [];
  size_bytes = 3;
  captured_bytes = 3;
  tail = record { stream = OutputStream.stdout; bytes = 2 ∷ 3 ∷ [] } ∷ [];
  tail_bytes = 2;
}

created : create 1 "out" 2 ≡ empty_spool
unfolding create
created = refl

appended : append one_byte empty_spool OutputStream.stdout (1 ∷ 2 ∷ 3 ∷ []) ≡ some spool
unfolding append
appended = refl

half_written :
    append full_disk empty_spool OutputStream.stdout (1 ∷ 2 ∷ 3 ∷ [])
    ≡ some (record spool {
      file = false;
      hashed = 1 ∷ 2 ∷ [];
      written = 1 ∷ 2 ∷ [];
      size_bytes = 2;
      error = some "no space left";
    })
unfolding append
half_written = refl

previewed : preview spool 1 ≡ record { stream = OutputStream.stdout; bytes = 3 ∷ [] } ∷ []
unfolding preview
previewed = refl

spool-KeepsTail : KeepsTail spool history
spool-KeepsTail = record { newest = refl; counted = refl }

spool-Captures : Captures spool history
spool-Captures = record {
  tail = spool-KeepsTail;
  captured = refl;
  hash = refl;
  size = refl;
  part = ([], refl);
  whole = inl (refl, refl, refl);
}

append-Captures_example :
    (t : OutputSpool) × (append one_byte spool OutputStream.stderr (4 ∷ 5 ∷ []) ≡ some t)
    × Captures t (history ++ (OutputStream.stderr, 4) ∷ (OutputStream.stderr, 5) ∷ [])
append-Captures_example =
    append-Captures one_byte spool history OutputStream.stderr (4 ∷ 5 ∷ []) one_byte-honest
      spool-Captures

abbrev digest : Bytes → String
digest _ = "d1"

complete_file : (output_file (finalize digest none spool) true 9).complete ≡ true
unfolding finalize output_file
complete_file = refl

output_file_complete_example :
    let t = finalize digest none spool in
    let f = output_file t true 9 in
    (t.written ≡ payload history)
    × (f.sha256 ≡ digest (payload history))
    × (f.size_bytes ≡ length (payload history))
    × (◌≡◌ {A = Option String} none none)
    × (true ≡ true)
output_file_complete_example =
    output_file_complete digest none spool history true 9 spool-Captures complete_file
