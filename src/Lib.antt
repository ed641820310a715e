-- ===== src/Lib.antt =====
-- The execution provider runs commands for remote callers. A supervisor
-- (packages/process-execution-core) starts processes, retains their output and answers for them; a
-- protocol (packages/process-execution-protocol) validates requests and dispatches them, alone or
-- in batches; a host daemon (apps/process-execution-host-daemon) answers a gateway and keeps each
-- response until it is acknowledged; the gateway (apps/execution-gateway) lets callers wait for
-- jobs.
--
-- Prelude holds what all parts share: Boolean tests, lists over native numbers, key equality,
-- dictionaries (association lists, whose order stands for the iteration order of the source's maps)
-- and texts as lists of code points with the methods of str that the patches call.
--
-- Core models packages/process-execution-core/src:
-- - Core/Errors is error.rs, Core/Types is types.rs, Core/Requests the equality that StartRequest
--   and RunRequest derive, Core/Config the limits of config.rs with Limits::validate; durations and
--   times are nanoseconds.
-- - Core/Journal is journal.rs: Journal::new, append and read. Retention relates it to the whole
--   history of output, Reading is about read.
-- - Core/Spool is OutputSpool of session.rs: create, append, append_tail, fail, finalize, preview,
--   output_file. Tail is about the bounded tail, Written about the output file.
-- - Core/Session is Session of session.rs with the state changes of its tasks run, read_output and
--   write_input: launch, root_exit, result_of, capture, receive, written, end_input. Lifecycle is
--   the step relation of callers and tasks in any order, Progress its runs, Permits the semaphore
--   of the input queue, Replay the receipts of input.
-- - Core/Runtime is the registry of runtime.rs: Registry::cleanup, session, the admission block of
--   start_execution, terminate_run. Runs is the admission block of run_execution, with
--   Runs/Admission about it and Runs/Cancelling about terminations that came before their run. Env
--   is validate_env, merge_env and the layers of a process's environment, with Env/Merging about
--   them. terminate_run lets go of the lock between its two looks at the registry, and what others
--   do meanwhile is an argument. Control is interrupt_execution, resize_terminal,
--   terminate_execution, shutdown and the limits of a request, with Once about the receipts of
--   interrupts and Closing about shutdown. Index is the invariant that every handle, start and run
--   names an entry, Calls and Ending the calls on such a registry, Paging is list_executions and
--   Traversal its pages in a row.
-- - Core/Files is filesystem.rs: its data, and the calls of the operating system as a record (Os).
--   Access is reading, digests and preconditions, Writing is write_file_at and remove_file_at
--   (Atomic: a failed write does not show; Contents: what a successful one leaves), Mutations the
--   registry with write_file, remove_file and apply_patch (Replay is about one mutation, Histories
--   about any sequence of them), Memory a file system in memory for the tests.
-- - Core/Patch is filesystem/patch.rs: Seek is seek and punctuation (Search: what its loops answer,
--   Meaning: what that says of the lines), Hunks is apply_codex (Meaning: the lines of a text;
--   Placement, Rewriting, Success), Splice the replacements from the last to the first, Parse is
--   parse_codex (Totality, Print the written form, Lines, Roundtrip and Whole the round trip),
--   Replace is apply_replacements (Edits), Receipts the receipt with its diff (Diff, Status),
--   Targets is target, Plan is state and plan_section, Execute is execute (Atomic: a rejected patch
--   does not show; Complete: no step lacks what its commit takes for granted).
--
-- Protocol models packages/process-execution-protocol/src: Operations is the operations and
-- parameters of lib.rs, Limits its constants, Batch is batch.rs with Request, Response,
-- Dispatcher::validate, dispatch, item and batch. Validation says which requests pass, Dispatch how
-- a sequential batch runs, Reach which operations a request can make the runtime run.
--
-- Daemon/Receipts models apps/process-execution-host-daemon/src/receipts.rs: accept, complete,
-- contains, response, next_response, acknowledge. Capacity is the invariant of the byte count,
-- Retention what each call keeps or forgets, Runs the histories of calls.
--
-- Gateway/Waiters models the waiters of apps/execution-gateway/src/job_completion.rs: subscribe,
-- notify, remove (here unsubscribe), decrement_user. Counts is the invariant of the counters,
-- Removal about dropping a subscription.
--
-- Supervisor/Framing is apps/process-execution/src/framing.rs: read, validate, write. Lines is the
-- round trip of a frame.
--
-- The parts interact by calls: a session holds a journal and, for runs, a spool, and captures each
-- chunk of output in both; the registry holds sessions; a dispatcher validates a request and hands
-- its operations to the runtime. Locked blocks are single functions from state to state, and
-- interleavings are sequences of steps. A panic (of an unwrap, an expect or an index) is none of an
-- Option, and the theorems show where it cannot occur.
--
-- Numbers are natural numbers. The saturating counters of the source are written with their bound
-- (captured_bytes); the positions and revisions of the journal and the sequences of the registry
-- are assumed to stay below 2^64. The counter of matching work stays below its limit plus one
-- pattern, and saturating sums of request sizes are plain sums. Fuel: the loop that writes a chunk
-- to the output file has the length of the chunk as fuel, which is enough since every round but the
-- last writes a byte; the loop over the sections of a patch has its number of lines, which is
-- enough since every section takes a line away (Core/Patch/Parse/Totality).
--
-- Parameters: the file system is any type with the calls of std::fs and std::path that the source
-- makes (Os), of which theorems assume that new directories, temporary files and failed renamings
-- do not show among the files (KeepsFiles); UTF-8 decoding and the JSON of requests and receipts
-- are arguments; the answers of the operating system to writes and flushes, SHA-256, the clock and
-- fresh identifiers are arguments; what the runtime answers to an operation and how a parallel
-- batch is scheduled are arguments of the dispatcher, and so are the fields of JSON values that it
-- reads.
--
-- Not modelled: operating-system backends, transports, services and updates of the daemon, the HTTP
-- and database layers of the gateway, serialisation; shells and their snapshots, with the variables
-- that install_state adds to an environment, the daemon's connection loop, and the gateway's jobs,
-- connections and webhooks.
pub mod Prelude
pub mod Core
pub mod Protocol
pub mod Daemon
pub mod Gateway
pub mod Supervisor
