-- ===== src/Worker.antt =====
-- pkg/jobs/worker.go: the worker's configuration, its store, and the checks before the first claim.
pub mod Reconciliation
pub mod Settled
pub mod Reported
pub mod Sent
pub mod Working
pub mod Message
pub mod Attempt
pub mod Claimed
pub mod Run
pub mod Repository
use gotth_jobs.Common.{
  ℕ, ℤ, pos, Bool, true, false, not, ◌||◌, Option, none, some, ltb_ℤ, eqb_ℤ, mod_ℤ, div_ℤ, List,
  ◌∷◌, [],
}
use gotth_jobs.Bytes.{Bytes, bytes_eq}
use gotth_jobs.Types.{Job, Lease, ClaimRequest, Failure, RetryPolicy, microsecond}
use gotth_jobs.Errors.{Err, invalid_error, check, ◌<|>◌, first_error}
use gotth_jobs.Values.{validate_claim}
use gotth_jobs.Rows.{validate_stored_job}
use gotth_jobs.Retry.{delay}
use gotth_jobs.Postgres.{Context, Action}

-- The interface `Store`, over the state that its operations work on.
pub record Store (S : Type 0) : Type 0 where
  pub claim : Context → ClaimRequest → Action S Job
  pub heartbeat : Context → Lease → ℤ → S → Option Err × S
  pub complete : Context → Lease → Action S Job
  pub fail : Context → Lease → Failure → Action S Job

-- `store` is `none` where it is like nil. The handler is the caller's function: `handler` says
-- whether there is one, and what it does is among the events of an attempt.
pub record Worker (S : Type 0) : Type 0 where
  pub store : Option (Store S)
  pub queue : Bytes
  pub worker_id : Bytes
  pub lease_duration : ℤ
  pub heartbeat_interval : ℤ
  pub poll_interval : ℤ
  pub retry_policy : RetryPolicy
  pub handler : Bool

-- time.Minute
abbrev pub minute : ℕ
minute = 60000000000

abbrev is_none {ℓ} : {A : Type ℓ} → Option A → Bool
is_none none = true
is_none (some a) = false

module _ {S : Type 0} (worker : Worker S) where
  unfoldable pub claim_request : ClaimRequest
  claim_request = record {
    queue = worker.queue;
    worker = worker.worker_id;
    lease_duration = worker.lease_duration;
  }

  -- The checks of Worker.validate in their order.
  unfoldable pub worker_checks : List (Option Err)
  unfolding claim_request
  worker_checks =
      check (is_none worker.store || not worker.handler)
        (invalid_error "worker store and handler are required")
      ∷ validate_claim claim_request
      ∷ check
          (not (ltb_ℤ (pos 0) worker.heartbeat_interval)
            || ltb_ℤ (div_ℤ worker.lease_duration 2) worker.heartbeat_interval)
          (invalid_error "heartbeat interval must be positive and no more than half the lease")
      ∷ check (not (ltb_ℤ (pos 0) worker.poll_interval) || ltb_ℤ (pos minute) worker.poll_interval)
          (invalid_error "poll interval must be between zero and one minute")
      ∷ (delay worker.retry_policy (pos 1)).1
      ∷ check
          (not (eqb_ℤ (mod_ℤ worker.retry_policy.initial microsecond) (pos 0))
            || not (eqb_ℤ (mod_ℤ worker.retry_policy.maximum microsecond) (pos 0)))
          (invalid_error "retry policy must use PostgreSQL microsecond precision")
      ∷ []

  unfoldable pub validate_worker : Option Err
  unfolding worker_checks first_error
  validate_worker = first_error worker_checks

abbrev invalid_claimed : Err
invalid_claimed = invalid_error "store returned an invalid claimed job"

abbrev stored_invalid : Option Err → Option Err
stored_invalid none = none
stored_invalid (some err) = some invalid_claimed

-- validateClaimedAttempt; `%v` leaves the inner error out of the chain.
unfoldable pub validate_claimed : Job → Bytes → Bytes → Option Err
validate_claimed job queue worker_id =
    check (not (bytes_eq job.queue queue) || not (bytes_eq job.lease_owner worker_id))
      invalid_claimed
    <|> stored_invalid (validate_stored_job job)
