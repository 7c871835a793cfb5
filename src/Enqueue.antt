-- ===== src/Enqueue.antt =====
-- pkg/jobs/enqueue.go: Enqueue in a transaction of its own, and EnqueueTx in the caller's.
pub mod Refinement
use gotth_jobs.Rows.{scan_job, scan_job_with_fingerprint}
use gotth_jobs.Values.Fingerprint.{request_fingerprint}
use gotth_jobs.Lifecycle.{usable}
use gotth_jobs.Values.Identifiers.{new_opaque_id}
use gotth_jobs.Postgres.{Database, PostgreSql, transact, Context, Action, enqueue_statement}
use gotth_jobs.Errors.{
  Result, Err, failed, wrapped, ok, invalid_error, ◌>>=◌, is, no_rows, sentinel, plain_error,
  idempotency_conflict,
}
use gotth_jobs.Bytes.{Bytes, bytes_eq, codes}
use gotth_jobs.Common.{
  Bool, false, Option, none, some, if◌then◌else◌, true, not, length, ◌==◌, ◌||◌,
}
use gotth_jobs.Types.{Job, Time, zero_job, EnqueueRequest}
use gotth_jobs.Values.{is_zero, validate_enqueue, clone_enqueue, prepare_enqueue}

pub record EnqueueResult : Type 0 where
  pub job : Job
  pub created : Bool

abbrev pub no_result : EnqueueResult
no_result = record { job = zero_job; created = false }

-- availableArgument: no argument for the zero time.
unfoldable pub available_argument : Time → Option Time
unfolding is_zero
available_argument value = if is_zero value then none else some value

-- The comparison of the stored fingerprint with the request's; `job` is the row that holds it.
unfoldable pub compared : Bytes → Result (Bytes × Job) → EnqueueResult × Option Err
compared fingerprint (failed err) = (no_result, some (wrapped "read idempotent job" err))
compared fingerprint (ok (stored, job)) =
    if not (length stored == length fingerprint) || not (bytes_eq stored fingerprint)
    then (no_result, some (sentinel idempotency_conflict))
    else (record { job = job; created = false }, none)

module _ {S : Type 0} (sha256 : Bytes → Bytes) (transaction : Database S) where
  -- After the INSERT of enqueuePrepared.
  unfoldable pub inserted : EnqueueRequest → Result Job → Action S EnqueueResult
  unfolding compared request_fingerprint
  inserted request (ok job) s = ((record { job = job; created = true }, none), s)
  inserted request (failed err) s =
      if not (is err no_rows)
      then ((no_result, some (wrapped "insert job" err)), s)
      else (if length request.idempotency_key == 0
          then (
            (no_result, some (plain_error "insert job returned no row without an idempotency key")),
            s,
          )
          else (let (row, s') =
                transaction.query_idempotent_job request.queue request.idempotency_key s in
              (
                compared (request_fingerprint sha256 request) (
                    row >>= λ (fingerprint, columns).
                    scan_job_with_fingerprint fingerprint columns),
                s',
              )))

  -- enqueuePrepared, on what newJobID returns.
  unfoldable pub enqueue_prepared : EnqueueRequest → Bytes × Option Err → Action S EnqueueResult
  unfolding inserted request_fingerprint available_argument
  enqueue_prepared request (id, some err) s = ((no_result, some err), s)
  enqueue_prepared request (id, none) s =
      let (row, s') =
        transaction.query_job
          (enqueue_statement id request.queue request.kind request.payload request.idempotency_key
            (request_fingerprint sha256 request) request.max_attempts
            (available_argument request.available_at))
          s in
      inserted request (row >>= scan_job) s'

  -- The operation of Enqueue inside its transaction: prepareEnqueue has been called.
  unfoldable pub enqueue_own :
      EnqueueRequest × Option Err → Bytes × Option Err → Option Context → Action S EnqueueResult
  unfolding enqueue_prepared transact
  enqueue_own (prepared, some err) id ctx s = ((no_result, some err), s)
  enqueue_own (prepared, none) id ctx s =
      transact transaction no_result ctx (enqueue_prepared prepared id) s

  -- validateEnqueueTxIsolation
  unfoldable pub isolation_error : Result Bytes → Option Err
  isolation_error (failed err) = some (wrapped "inspect enqueue transaction isolation" err)
  isolation_error (ok isolation) =
      if not (bytes_eq isolation (codes "read committed"))
      then some (invalid_error "EnqueueTx requires Read Committed isolation")
      else none

  unfoldable pub enqueue_isolated :
      EnqueueRequest → Bytes × Option Err → Option Err × S → (EnqueueResult × Option Err) × S
  unfolding enqueue_prepared clone_enqueue
  enqueue_isolated request id (some err, s) = ((no_result, some err), s)
  enqueue_isolated request id (none, s) = enqueue_prepared (clone_enqueue request) id s

  unfoldable pub enqueue_joined :
      EnqueueRequest → Bytes × Option Err → Option Err → Action S EnqueueResult
  unfolding enqueue_isolated isolation_error
  enqueue_joined request id (some err) s = ((no_result, some err), s)
  enqueue_joined request id none s =
      let (isolation, s') = transaction.query_isolation s in
      enqueue_isolated request id (isolation_error isolation, s')

module _ {S : Type 0} (sha256 : Bytes → Bytes) (repository : Option (PostgreSql S)) where
  -- Enqueue. The job identifier is made from `entropy` when the request is valid.
  unfoldable pub enqueue_with :
      Option (Database S)
      → Option Context
      → EnqueueRequest
      → Bytes × Option Err
      → Action S EnqueueResult
  unfolding enqueue_own prepare_enqueue
  enqueue_with none ctx request id s =
      ((no_result, some (invalid_error "repository is required")), s)
  enqueue_with (some database) none request id s =
      ((no_result, some (invalid_error "context is required")), s)
  enqueue_with (some database) (some ctx) request id s =
      enqueue_own sha256 database (prepare_enqueue request) id (some ctx) s

  unfoldable pub database_of : Option (PostgreSql S) → Option (Database S)
  database_of none = none
  database_of (some r) = r.database

  unfoldable pub enqueue :
      Option Context → EnqueueRequest → Bytes → Option Err → Action S EnqueueResult
  unfolding enqueue_with database_of new_opaque_id
  enqueue ctx request entropy entropy_err =
      enqueue_with (database_of repository) ctx request (new_opaque_id entropy entropy_err)

  joined_with :
      Option (Database S)
      → Option (Database S)
      → EnqueueRequest
      → Bytes × Option Err
      → Action S EnqueueResult
  unfolding enqueue_joined validate_enqueue
  joined_with (some database) (some transaction) request id s =
      enqueue_joined sha256 transaction request id (validate_enqueue request) s
  joined_with _ _ request id s =
      ((no_result, some (invalid_error "repository, context, and transaction are required")), s)

  -- EnqueueTx: `transaction` is the caller's, `none` where it is like nil.
  unfoldable pub enqueue_tx :
      Option Context
      → Option (Database S)
      → EnqueueRequest
      → Bytes
      → Option Err
      → Action S EnqueueResult
  unfolding joined_with usable new_opaque_id
  enqueue_tx ctx transaction request entropy entropy_err =
      joined_with (usable repository ctx) transaction request (new_opaque_id entropy entropy_err)
