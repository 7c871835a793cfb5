-- ===== src/Lib.antt =====
-- gotth-jobs: a PostgreSQL-backed durable job queue for Go (pkg/jobs), modelled and verified.
--
-- The program keeps jobs in one table. Producers enqueue; workers claim a job under a random lease
-- token, extend the lease by heartbeats, and acknowledge by Complete or Fail; operators read, cancel
-- and redrive. Every mutation is one SQL statement in one transaction.
--
-- Which file models which part:
-- - Types, Errors, Bytes: pkg/jobs/types.go and errors.go. A Go string is its list of bytes. An error is
--   the tree that Unwrap walks; texts keep the fixed words of the source and leave out the values
--   that %d, %s and %q put between them.
-- - Values, Values/Utf8, Values/Fingerprint, Values/Identifiers: pkg/jobs/values.go. SHA-256 is a
--   parameter, and so are the bytes that the entropy source gives.
-- - Retry: pkg/jobs/retry.go, with the products of int64 wrapped. The loop runs on the rounds that
--   the attempt number leaves, so it needs no fuel.
-- - Rows: pkg/jobs/rows.go, the scanners and validateStoredJob. jobQueryArguments only chooses pgx
--   options, and is left out.
-- - Table, Table/Update, Table/Statements: the table of pkg/jobs/migrations/000001_jobs.sql with its
--   CHECK constraints, and the SQL constants of lifecycle.go, operations.go and enqueue.go as
--   functions on it. A statement runs as one step; the clock may read differently at every place and
--   row, the rows that SKIP LOCKED passes over and the collation are parameters.
-- - Engine: the statements that the package sends, run in any order. Engine/Finds is what a statement does
--   to one row, which Engine/Evolution, Engine/Exclusive and Engine/Deliveries follow through a history.
--   Engine/Unchecked is the same statements on a table without CHECK constraints for UPDATE.
--   Engine/Serving says what PostgreSQL and pgx promise a transaction that nobody disturbs, and a read;
--   all statements of such a database read the clock and the locks of one session.
-- - Table/Decoded: the job that a row stands for. Table/Lookup: the row of an identifier.
-- - Lifecycle/Refinement: Claim, Heartbeat, Complete and Fail as abstract operations on the committed
--   table. Enqueue/Refinement: Enqueue, and EnqueueTx on the copy of the caller's transaction.
--   Operations/Refinement: Get, ListDead, Cancel and Redrive.
-- - Postgres: pkg/jobs/postgres.go. pgx is a record of operations on a state that the model does not
--   look into; transact with its deferred rollback runs over it. nilLike acts on what package reflect
--   sees of a value. A nil or nil-like receiver, context or transaction is the none of an Option.
-- - Lifecycle, Operations, Enqueue: the methods of lifecycle.go, operations.go and enqueue.go over that
--   record, every branch with its error.
-- - Worker, Worker/Attempt, Worker/Run: pkg/jobs/worker.go. An attempt is a state that events move, one
--   for each thing that may happen next; Run is a loop over rounds of such events. Worker/Message is
--   boundedFailure; Worker/Repository makes the repository the store of a worker. Worker/Reconciliation
--   follows the failure of a commit through it, Worker/Reported and Worker/Sent the statements of an
--   attempt, and Worker/Settled and Worker/Working a round through the worker, the repository and the
--   table.
-- - Calls: the exported methods but EnqueueTx as calls on one repository, and the statements that they
--   send. Calls/Sent: a database that writes its statements down.
-- - Postgres/Outcomes, Operations/Counting, Values/Fingerprint/Framing, Retry/Bounds and the files in
--   Table/Statements and Engine: the proofs about these parts.
-- - Examples: concrete jobs and requests for the theorems, and a concrete database for the calls.
--
-- Numbers: attempts and durations of Go are integers with a sign, the columns of the table are natural
-- numbers; a timestamptz counts microseconds from the earliest finite one.
--
-- Loops: Delay recurs on the rounds left, boundedFailure on the bytes, Run on the list of rounds and an
-- attempt on the list of events; an attempt or a run whose events stop short is still under way.
--
-- Not modelled: timers, whose effects are events, the file system of migrations.go, the cost
-- statements in the comments, and the pgx options that jobQueryArguments sets.
pub mod Common
pub mod Bytes
pub mod Types
pub mod Errors
pub mod Values
pub mod Retry
pub mod Rows
pub mod Table
pub mod Postgres
pub mod Lifecycle
pub mod Operations
pub mod Enqueue
pub mod Engine
pub mod Examples
pub mod Calls
pub mod Worker
