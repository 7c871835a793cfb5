-- ===== src/Lifecycle.antt =====
-- pkg/jobs/lifecycle.go: Claim, Heartbeat, Complete and Fail. A nil receiver or context is `none`.
pub mod Refinement
use gotth_jobs.Common.{
  ℤ, Bool, true, false, not, ◌||◌, Option, none, some, length, if◌then◌else◌, div_ℤ,
}
use gotth_jobs.Bytes.{Bytes, codes}
use gotth_jobs.Types.{
  State, pending, running, succeeded, dead, canceled, other, Job, Lease, ClaimRequest, Failure,
  zero_job, microsecond,
}
use gotth_jobs.Errors.{
  Err, sentinel, is, no_rows, no_job, not_found, job_canceled, lease_lost, invalid_error, wrapped,
  plain_error, check, ◌<|>◌, Result, ok, failed, ◌>>=◌,
}
use gotth_jobs.Rows.{scan_job, scan_bounded, state_of_text}
use gotth_jobs.Values.{validate_claim, validate_failure, validate_lease_duration}
use gotth_jobs.Values.Identifiers.{valid_job_id, valid_lease_token, new_opaque_id}
use gotth_jobs.Postgres.{
  Context, Database, PostgreSql, Action, JobStatement, claim_statement, complete_statement,
  fail_statement, transact,
}

-- time.Duration.Microseconds
abbrev pub microseconds : ℤ → ℤ
microseconds d = div_ℤ d microsecond

-- `repository == nil || nilLike(repository.database) || ctx == nil`: the database, if all are there.
unfoldable pub usable : {S : Type 0} → Option (PostgreSql S) → Option Context → Option (Database S)
usable none ctx = none
usable (some repository) none = none
usable (some repository) (some ctx) = repository.database

abbrev pub required : Err
required = invalid_error "repository and context are required"

-- validateLeaseOperation, after the receiver and the context.
unfoldable pub validate_lease : Lease → Option Err
validate_lease lease =
    check (not (valid_job_id lease.job_id) || not (valid_lease_token lease.token))
      (invalid_error "lease is invalid")

-- The `switch` of classifyLease.
unfoldable pub rejection : State → Err
rejection canceled = sentinel job_canceled
rejection pending = sentinel lease_lost
rejection running = sentinel lease_lost
rejection succeeded = sentinel lease_lost
rejection dead = sentinel lease_lost
rejection (other text) = plain_error "classify rejected job lease: corrupt stored state"

unfoldable pub classified : Result Bytes → Err
unfolding rejection state_of_text
classified (ok text) = rejection (state_of_text text)
classified (failed err) =
    if is err no_rows
    then sentinel not_found
    else wrapped "classify rejected job lease: corrupt stored state" err

pub record ClaimResult : Type 0 where
  pub job : Job
  pub found : Bool

abbrev pub no_claim : ClaimResult
no_claim = record { job = zero_job; found = false }

module _ {S : Type 0} (database : Database S) where
  unfoldable pub classify_lease : Bytes → S → Err × S
  unfolding classified scan_bounded
  classify_lease id s =
      let (column, s') = database.query_lease_state id s in
      (classified (column >>= scan_bounded 1 (length (codes "succeeded"))), s')

  -- After the fenced update of leaseMutation.
  unfoldable pub mutated : Bytes → Result Job → S → (Job × Option Err) × S
  unfolding classify_lease
  mutated id (ok job) s = ((job, none), s)
  mutated id (failed err) s =
      if is err no_rows
      then (let (rejected, s') = classify_lease id s in ((zero_job, some rejected), s'))
      else ((zero_job, some (wrapped "update job lease" err)), s)

  unfoldable pub mutate_lease : Bytes → JobStatement → Action S Job
  unfolding mutated
  mutate_lease id statement s =
      let (row, s') = database.query_job statement s in mutated id (row >>= scan_job) s'

  unfoldable pub lease_mutation : Option Context → Bytes → JobStatement → Action S Job
  unfolding mutate_lease transact
  lease_mutation ctx id statement = transact database zero_job ctx (mutate_lease id statement)

  -- After the update of Heartbeat.
  unfoldable pub extended : Bytes → Option Err × S → (Unit {0} × Option Err) × S
  unfolding classify_lease
  extended id (none, s) = ((tt, none), s)
  extended id (some err, s) =
      if is err no_rows
      then (let (rejected, s') = classify_lease id s in ((tt, some rejected), s'))
      else ((tt, some (wrapped "update job lease" err)), s)

  unfoldable pub extend_lease : Lease → ℤ → Action S (Unit {0})
  unfolding extended
  extend_lease lease duration s =
      extended lease.job_id
        (database.query_heartbeat lease.job_id lease.token (microseconds duration) s)

  -- The operation inside the transaction of claimWithToken.
  unfoldable pub claimed : Result Job → ClaimResult × Option Err
  claimed (ok job) = (record { job = job; found = true }, none)
  claimed (failed err) =
      if is err no_rows then (no_claim, none) else (no_claim, some (wrapped "claim job" err))

  unfoldable pub claim_one : ClaimRequest → Bytes → Action S ClaimResult
  unfolding claimed
  claim_one request token s =
      let (row, s') =
        database.query_job
          (claim_statement request.queue token request.worker (microseconds request.lease_duration))
          s in
      (claimed (row >>= scan_job), s')

  -- What claimWithToken makes of the transaction's result.
  unfoldable pub claim_outcome : ClaimResult × Option Err → Job × Option Err
  claim_outcome (result, some err) = (result.job, some err)
  claim_outcome (result, none) =
      if result.found then (result.job, none) else (zero_job, some (sentinel no_job))

  unfoldable pub claim_valid : Option Context → ClaimRequest → Bytes → Action S Job
  unfolding claim_outcome claim_one transact
  claim_valid ctx request token s =
      let (result, s') = transact database no_claim ctx (claim_one request token) s in
      (claim_outcome result, s')

-- A guard before any use of the database: the first error returns at once.
abbrev pub guarded : {S T : Type 0} → T → Option Err → Action S T → Action S T
guarded zero none action s = action s
guarded zero (some err) action s = ((zero, some err), s)

-- The same for the receiver and the context.
abbrev pub with_database :
    {S T : Type 0} → T → Option (Database S) → (Database S → Action S T) → Action S T
with_database zero none action s = ((zero, some required), s)
with_database zero (some database) action s = action database s

module _ {S : Type 0} (repository : Option (PostgreSql S)) (ctx : Option Context) where
  unfoldable pub claim_with_token : ClaimRequest → Bytes → Action S Job
  unfolding usable claim_valid
  claim_with_token request token = with_database zero_job (usable repository ctx) λ database.
      guarded zero_job
        (validate_claim request
          <|> check (not (valid_lease_token token)) (invalid_error "lease token is invalid"))
        (claim_valid database ctx request token)

  -- newLeaseToken reads `entropy`, or fails.
  unfoldable pub claim_token : ClaimRequest → Bytes × Option Err → Action S Job
  unfolding claim_with_token
  claim_token request (token, some err) s = ((zero_job, some err), s)
  claim_token request (token, none) s = claim_with_token request token s

  unfoldable pub claim : ClaimRequest → Bytes → Option Err → Action S Job
  unfolding claim_token new_opaque_id
  claim request entropy entropy_err = with_database zero_job (usable repository ctx) λ database.
      guarded zero_job (validate_claim request)
        (claim_token request (new_opaque_id entropy entropy_err))

  unfoldable pub heartbeat : Lease → ℤ → Action S (Unit {0})
  unfolding usable validate_lease extend_lease transact
  heartbeat lease duration = with_database tt (usable repository ctx) λ database.
      guarded tt (validate_lease lease <|> validate_lease_duration duration)
        (transact database tt ctx (extend_lease database lease duration))

  unfoldable pub complete : Lease → Action S Job
  unfolding usable validate_lease lease_mutation
  complete lease = with_database zero_job (usable repository ctx) λ database.
      guarded zero_job (validate_lease lease)
        (lease_mutation database ctx lease.job_id (complete_statement lease.job_id lease.token))

  unfoldable pub fail : Lease → Failure → Action S Job
  unfolding usable validate_lease lease_mutation
  fail lease failure = with_database zero_job (usable repository ctx) λ database.
      guarded zero_job (validate_lease lease <|> validate_failure failure) (
        lease_mutation database ctx lease.job_id (
          fail_statement lease.job_id lease.token failure.message failure.permanent
            (microseconds failure.retry_after)))
