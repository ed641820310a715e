-- ===== src/Core/Journal/Tests.antt =====
-- Runs of the journal on small inputs, and the theorems applied there.
use execution_provider.Prelude.{
  ◌+◌, ◌≡◌, refl, true, false, none, some, [], ◌∷◌, ◌++◌, map, length, take, drop,
}
use execution_provider.Core.Types.{
  Execution, ExecutionHandle, ExecutionState, Command, IoMode, Cursor, ObserveRequest, OutputStream,
  Observation, WaitMode, Output,
}
use execution_provider.Core.Journal.{Journal, append, observe, is_stale, output_of, begin_of}
use execution_provider.Core.Journal.Retention.{Represents, append-Represents}
use execution_provider.Core.Journal.Reading.{Observes, observe-Observes, read_resumes}

abbrev handle : ExecutionHandle
handle = record { id = 7; generation_id = 1 }

abbrev execution : Execution
execution = record {
  handle = handle;
  command = Command.program "/bin/cat" [];
  resolved_shell = none;
  cwd = "/";
  io = IoMode.pipes true;
  labels = [];
  state = ExecutionState.running;
  result = none;
  created_at = 0;
  started_at = some 1;
  finished_at = none;
  output_incomplete = false;
  input_error = none;
}

-- Four bytes have arrived, three of which fit.
abbrev journal : Journal
journal = record {
  chunks =
      record { stream = OutputStream.stdout; bytes = 2 ∷ 3 ∷ [] }
      ∷ record { stream = OutputStream.stderr; bytes = 4 ∷ [] }
      ∷ [];
  start = 1;
  end = 4;
  capacity = 3;
  revision = 2;
}

abbrev history : Output
history =
    (OutputStream.stdout, 1)
    ∷ (OutputStream.stdout, 2)
    ∷ (OutputStream.stdout, 3)
    ∷ (OutputStream.stderr, 4)
    ∷ []

-- Two more bytes: the oldest two expire.
abbrev journal_after : Journal
journal_after = record {
  chunks =
      record { stream = OutputStream.stderr; bytes = 4 ∷ [] }
      ∷ record { stream = OutputStream.stdout; bytes = 5 ∷ 6 ∷ [] }
      ∷ [];
  start = 3;
  end = 6;
  capacity = 3;
  revision = 2;
}

abbrev later : Output
later = (OutputStream.stdout, 5) ∷ (OutputStream.stdout, 6) ∷ []

journal_appends : append journal OutputStream.stdout (5 ∷ 6 ∷ []) ≡ some journal_after
unfolding append
journal_appends = refl

journal-Represents : Represents journal history
journal-Represents = record { total = refl; window = refl; kept = refl }

journal_after-Represents : Represents journal_after (history ++ later)
journal_after-Represents = record { total = refl; window = refl; kept = refl }

append-Represents_example :
    (j : Journal) × (append journal OutputStream.stdout (5 ∷ 6 ∷ []) ≡ some j)
    × Represents j (history ++ map (λ b. (OutputStream.stdout, b)) (5 ∷ 6 ∷ []))
    × (j.capacity ≡ 3)
    × (j.revision ≡ 2)
append-Represents_example =
    append-Represents journal history OutputStream.stdout (5 ∷ 6 ∷ []) journal-Represents

abbrev cursor : Cursor
cursor = record { handle = handle; offset = 2; revision = 2 }

abbrev request : ObserveRequest
request = record {
  handle = handle;
  after_cursor = some cursor;
  wait_ms = 0;
  return_when = WaitMode.activity;
  max_output_bytes = none;
}

abbrev cursor_after : Cursor
cursor_after = record { handle = handle; offset = 4; revision = 2 }

abbrev first : Observation
unfolding observe
first = observe journal execution (some cursor) 2

abbrev second : Observation
unfolding observe
second = observe journal_after execution (some first.next_cursor) 5

observed : Observes journal history execution (some cursor) 2 first
unfolding observe is_stale
observed = observe-Observes journal history execution (some cursor) 2 journal-Represents refl

observed_after :
    Observes journal_after (history ++ later) execution (some first.next_cursor) 5 second
unfolding observe is_stale
observed_after =
    observe-Observes journal_after (history ++ later) execution (some first.next_cursor) 5
      journal_after-Represents refl

read_resumes_example :
    output_of first.output ++ output_of second.output
    ≡ take
        (length (output_of first.output) + 5)
        (drop (begin_of journal (some cursor)) (history ++ later))
unfolding observe is_stale
read_resumes_example =
    read_resumes journal journal_after history later execution execution (some cursor) 2 5
      journal-Represents journal_after-Represents refl refl refl
