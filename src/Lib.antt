-- ===== src/Lib.antt =====
-- cycles-client-python: a verification library beside the Python client of the Cycles budget protocol.
--
-- A guarded call reserves budget, runs the user's code under a heartbeat that extends the lease, and
-- then commits the actual spend, or releases the reservation if the code failed. Spend that is known
-- is never given up because of an error on the way: it is journaled before the commit, retried in the
-- background under the same idempotency key, and, if the reservation has expired, recovered by an
-- event.
--
-- Which file models which part (paths from the repository's root):
--   * Models/Codes, Models/Records: the enumerations, value objects and responses of
--     runcycles/models.py (`Unit` is `CostUnit`). Models/Requests: the declared limits of its request
--     models, as tests on dictionaries; Models/Requests/Valid: entries that keep a request valid.
--     Models/Responses: the responses and the records that the client passes through.
--   * Config: runcycles/config.py.
--   * Response, Response/RetryAfter: `CyclesResponse` of runcycles/response.py with its header
--     accessors, and the reading of Retry-After from the text of the header.
--   * Validation: runcycles/_validation.py, and the declared limits of `Subject`.
--   * Exchange: the calls of runcycles/client.py that carry an idempotency key, as requests. Client:
--     the HTTP calls of that file, the reading of an HTTP answer, and the subject of
--     `stream_reservation`. Client/Async: `AsyncCyclesClient`, with its cancellations. Client/Calls
--     and Client/Losses: what the calls guarantee, the latter for the first commit with the client as
--     the lifecycle's server.
--   * Exceptions: runcycles/exceptions.py. Exceptions/Refusal: `_build_protocol_exception` of
--     runcycles/lifecycle.py. Exceptions/Classes and Coded: what the exception says of the answer.
--   * Journal/Record: `PendingCommitRecord` of runcycles/journal.py and its JSON form. Journal/Files:
--     a directory of files. Journal/Store: `CommitJournal` over it, with the names of the files
--     (`record_file` is `record`, `discard_file` is `discard`) and with the operations that raise
--     given by `WriteRun` and `Faults`. Journal/Interface: the journal as the retry engine sees it,
--     operations with laws. Journal/Names, Listing, RoundTrip, Atomic, Loading and Migration: what
--     names, reading, writing and loading guarantee. Journal/Contents, Refines and Reload: the files as
--     an implementation of the interface, also across a loading. Journal/Identity: the directory that a
--     client's journal gets.
--   * Retry/Configured: the settings of an engine by the configuration. Retry/Outcome: the
--     classification of answers and codes of runcycles/retry.py. Retry/Engine: the engine's state, its
--     journal calls, its delays and its scheduling. Retry/Classify and Retry/Loop:
--     `_classify_commit_response`, `_classify_event_response`, `_attempt_once` and `_retry_loop`.
--     Retry/Durable, Attempted and Bounded carry invariants, Retry/Guarantees, Delays and Codes the
--     results. Retry/Replay: the claim of a directory, the replay when an engine gets its client,
--     and the submission and the scheduling of the asynchronous engine; Retry/Replays proves what they
--     come to. Retry/Awaiting: an awaited request, and where its task is cancelled. Retry/Async: the
--     retry loop of the asynchronous engine, and Retry/Async/Attempts and Cancelled what a cancelled
--     task leaves. Retry/Rounds and Delivery: what a retry does on a server that is away for some
--     requests. Retry/Flush: the wait for retries at the interpreter's exit.
--   * Lifecycle/Schema, Bodies, Create, Reserve, Commit, Context, Execute: runcycles/lifecycle.py, from
--     the schema checks and the bodies to `_create_reservation_with_recovery`, `_handle_commit` and
--     `execute`, with the context of runcycles/context.py. Lifecycle/Spend, Creation, Settles, Checked
--     and Fallback prove what they come to; Lifecycle/Restart composes the commit with the files and
--     with the replay in a later process. Lifecycle/Declared, Declared/Reservation: the bodies against
--     the declared limits.
--   * Lifecycle/Async, Async/Execute: `_create_reservation_with_recovery_async` and
--     `AsyncCyclesLifecycle` of runcycles/lifecycle.py. Async/Calm and Async/Agrees relate them to the
--     synchronous lifecycle, Async/Replaying and Async/Cancelled prove what cancelled calls leave.
--   * Heartbeat/Span, Scheduler, Heart, Loop: `_AuthoritativeScheduler` and the heartbeat loop of
--     runcycles/lifecycle.py. Heartbeat/Deadline: the deadline around an attempt. Heartbeat/Lease,
--     Streaks, Keys, Cadence and Sends prove their properties. Heartbeat/Async: the thread's requests,
--     and the task of `AsyncCyclesLifecycle` with its cancellations, with Async/Cancelled and
--     Async/Sends on what it sends.
--   * Streaming/Usage, Enter, Exit: the usage, the entry and the exit of a `StreamReservation` of
--     runcycles/streaming.py; Streaming/Heartbeat: its heartbeats. Streaming/Opens, Settles and
--     Declared prove what they come to. Streaming/Whole: a whole `with` statement. Streaming/Async:
--     `AsyncStreamReservation`, with Async/Agrees and Async/Cancelled as in the lifecycle.
--   * Decorator: the choice of a client in runcycles/decorator.py. Decorator/Arguments: the arguments
--     of `cycles`, constants or callables, and the body of a create that a call makes of them
--     (`resolve_body` is the head of `execute` with `_build_reservation_body`). Decorator/Calls: the
--     calls of `execute` on such arguments, and the wrappers with their cached lifecycle; Resolved and
--     Cached prove what they come to.
--   * Json, Prelude: JSON values and Python dictionaries in insertion order; the shared names,
--     integers, results and texts as code points. Tests: concrete runs.
--
-- How the program is read:
--   * State is passed explicitly. `World` holds the journal, all exchanges (newest first), the delays
--     slept through and the retries handed to the background; `Env` adds the context variable and
--     whether the heartbeat runs. A thread or task that is started is recorded, and its body (the retry
--     loop, the heartbeat loop) is a function of its own; requests of a heartbeat that is still running
--     while the commit is sent are not interleaved with it.
--   * A server is any function from a request and the history to a reply; a reply without an outcome is
--     an exception of the client or a deadline that passed. A guarded action is any function of its
--     context and the environment.
--   * Time is in microseconds. What the source computes in floats is rounded down to a microsecond, a
--     backoff multiplier is a fraction, and readings of the clock and keys made by `uuid4` are inputs.
--     Python's integers are unbounded: ℕ where the source has checked the sign, else ℤ.
--   * An exception is a value: `Result`, an `Option`, or an error type of the function. In Lifecycle
--     and in the exit of a stream, an error that `_build_protocol_exception` builds is kept as the
--     response it is built from; where that building raises, the exit of a stream raises or, while it
--     releases, records a transport error.
--   * The retry loop takes fuel. 2 * max_attempts + 1 rounds are enough, since the switch to the event
--     restarts the count once; that this fuel gives a result is proved.
--   * A coroutine may be cancelled at every request that it awaits, and a retry or a heartbeat task in
--     its sleep as well: before the request left, or after the server had it (`Await`). A
--     `CancelledError` passes every `except Exception`, so the lifecycle, the stream, the retry loop
--     and the heartbeat have asynchronous definitions of their own, over `Process`, the world with the
--     claimed directories. A cancellation that arrives while the cancelled heartbeat task is awaited
--     is passed over, as in the source, and changes nothing.
--   * The asynchronous calls run inside an event loop, and may make up for a replay that was put off.
--     What a cancelled call leaves is stated over the files of the journal, whose loading keeps the
--     record that was written last (Journal/Reload).
--
-- Parameters, for code outside the repository: pydantic's answers for a body (`Schemas`), Python's
-- json module for text (`JsonText`, with the law that reading undoes writing), the SHA-256 digest of
-- file names and derived keys (where two ids must not share a file, it is assumed to have no
-- collisions), httpx as a function from a call to its result, threads by whether they run and what
-- time joining them takes, Python's `int` and `float` of a text, `str.lower`, PBKDF2, the home
-- directory, the normal form of a path, and the parsing of an HTTP date. The retry loop and the lifecycle use the journal through
-- `Journal`, with the laws that a written or discarded record is found or gone; the files implement it
-- when nothing goes wrong with them. Times of files are given by whether a temporary file is stale,
-- and other processes do not write to the directory during an operation. What a client's configuration
-- decides for a decorated function (its journal, its engine, the server that it reaches) is a
-- `Backend`.
--
-- Not modelled: opening and closing of connections, logging, examples and scripts. A callable of a
-- decorator is a function of the call's arguments that returns or raises, and has no other effect. The
-- accessors of a stream only read its fields.
pub mod Prelude
pub mod Json
pub mod Models
pub mod Response
pub mod Exchange
pub mod Client
pub mod Config
pub mod Exceptions
pub mod Validation
pub mod Journal
pub mod Retry
pub mod Lifecycle
pub mod Heartbeat
pub mod Streaming
pub mod Decorator
mod Tests
