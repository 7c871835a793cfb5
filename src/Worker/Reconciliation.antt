-- ===== src/Worker/Reconciliation.antt =====
-- What the worker reports when the outcome of a commit is unknown.
use gotth_jobs.Common.{◌≡◌, true, Option, none, some}
use gotth_jobs.Bytes.{Bytes}
use gotth_jobs.Types.{Job, Lease}
use gotth_jobs.Errors.{
  Err, is, commit_outcome_unknown, reconciliation_job, reconciliation_lease, is_permanent,
}
use gotth_jobs.Postgres.{Database, JobStatement, complete_statement, fail_statement}
use gotth_jobs.Lifecycle.{microseconds}
use gotth_jobs.Worker.{Worker, Store}
use gotth_jobs.Worker.Message.{bounded_failure}
use gotth_jobs.Worker.Attempt.{retry_delay}
use gotth_jobs.Worker.Run.{Turn, returns}
use gotth_jobs.Worker.Repository.{postgresql_store}

-- The repository over a database as a worker's store.
abbrev pub store_of : {S : Type 0} → Database S → (S → Bytes × Option Err) → Store S
store_of database entropy = postgresql_store (some (record { database = some database })) entropy

-- Run returns an error that reports the job, and is ErrCommitOutcomeUnknown.
abbrev pub ReportsClaim : {S : Type 0} → Job → Turn S → Type 0
ReportsClaim {S} job result =
    (err : Err) × (s : S) × (result ≡ returns err s)
    × (reconciliation_job err ≡ some job)
    × (is err commit_outcome_unknown ≡ true)

-- The statement by which the worker acknowledges a handler's result.
abbrev pub acknowledgement : {S : Type 0} → Worker S → Store S → Job → Option Err → JobStatement
acknowledgement worker store job none = complete_statement job.lease.job_id job.lease.token
acknowledgement worker store job (some err) =
    fail_statement job.lease.job_id job.lease.token (bounded_failure err) (is_permanent (some err))
      (microseconds (retry_delay worker store job err).0)

-- An attempt's error that reports the store's answer and the lease, and is ErrCommitOutcomeUnknown.
abbrev pub ReportsLease : {S : Type 0} → Job → Lease → Option Err × S → Type 0
ReportsLease {S} answer lease result =
    (err : Err) × (s : S) × (result ≡ (some err, s))
    × (reconciliation_job err ≡ some answer)
    × (reconciliation_lease err ≡ some lease)
    × (is err commit_outcome_unknown ≡ true)

module _ {S : Type 0} (worker : Worker S) (database : Database S) (entropy : S → Bytes × Option Err)
    (job : Job) where
  abbrev store : Store S
  store = store_of database entropy
