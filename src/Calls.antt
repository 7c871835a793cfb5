-- ===== src/Calls.antt =====
-- The exported methods as calls on one repository, and what they ask of the database.
pub mod Keeping
pub mod Safety
pub mod Sent
use gotth_jobs.Values.Identifiers.{new_opaque_id, valid_lease_token, validate_job_id}
use gotth_jobs.Values.Fingerprint.{request_fingerprint}
use gotth_jobs.Values.{prepare_enqueue, validate_claim, validate_lease_duration, validate_failure}
use gotth_jobs.Common.{ℤ, Option, none, some, List, [], ◌∷◌, ◌≡◌, true, ◌⊎◌}
use gotth_jobs.Bytes.{Bytes}
use gotth_jobs.Types.{Lease, EnqueueRequest, ClaimRequest, Failure, DeadCursor, Time}
use gotth_jobs.Errors.{Err}
use gotth_jobs.Postgres.{
  Context, Database, PostgreSql, JobStatement, enqueue_statement, claim_statement, fail_statement,
  complete_statement, get_statement, cancel_statement, redrive_statement,
}
use gotth_jobs.Lifecycle.{claim, heartbeat, complete, fail, microseconds, validate_lease}
use gotth_jobs.Operations.{get, counts, list_dead, cancel, redrive}
use gotth_jobs.Enqueue.{enqueue, available_argument}
use gotth_jobs.Engine.{Statement, job_statement, heartbeat_statement}

-- Calls with their arguments; Enqueue and Claim with what the entropy source gives them.
pub data Call : Type 0 where
  call_enqueue : EnqueueRequest → Bytes → Option Err → Call
  call_claim : ClaimRequest → Bytes → Option Err → Call
  call_heartbeat : Lease → ℤ → Call
  call_complete : Lease → Call
  call_fail : Lease → Failure → Call
  call_get : Bytes → Call
  call_counts : Bytes → Call
  call_list_dead : Bytes → Option DeadCursor → ℤ → Call
  call_cancel : Bytes → Call
  call_redrive : Bytes → Call

module _ {S : Type 0} (sha256 : Bytes → Bytes) (repository : Option (PostgreSql S)) where
  -- The state of the database after a call.
  unfoldable pub invoke : Option Context → Call → S → S
  invoke ctx (call_enqueue request entropy err) s =
      (enqueue sha256 repository ctx request entropy err s).1
  invoke ctx (call_claim request entropy err) s = (claim repository ctx request entropy err s).1
  invoke ctx (call_heartbeat lease duration) s = (heartbeat repository ctx lease duration s).1
  invoke ctx (call_complete lease) s = (complete repository ctx lease s).1
  invoke ctx (call_fail lease failure) s = (fail repository ctx lease failure s).1
  invoke ctx (call_get id) s = (get repository ctx id s).1
  invoke ctx (call_counts queue) s = (counts repository ctx queue s).1
  invoke ctx (call_list_dead queue cursor limit) s =
      (list_dead repository ctx queue cursor limit s).1
  invoke ctx (call_cancel id) s = (cancel repository ctx id s).1
  invoke ctx (call_redrive id) s = (redrive repository ctx id s).1

-- The INSERT of a prepared request.
abbrev pub insertion : (Bytes → Bytes) → EnqueueRequest → Bytes → Statement
insertion sha256 request id = job_statement (
    enqueue_statement id request.queue request.kind request.payload request.idempotency_key
      (request_fingerprint sha256 request) request.max_attempts
      (available_argument request.available_at))

abbrev pub hands_out : ClaimRequest → Bytes → Statement
hands_out request token =
    job_statement
      (claim_statement request.queue token request.worker (microseconds request.lease_duration))

abbrev pub fails : Lease → Failure → Statement
fails lease failure = job_statement (
    fail_statement lease.job_id lease.token failure.message failure.permanent
      (microseconds failure.retry_after))

-- The statements of a call that may change the table or read a job, with what is validated before.
abbrev pub Sends : (Bytes → Bytes) → Call → Statement → Type 0
Sends sha256 (call_enqueue request entropy err) q =
    ((prepare_enqueue request).1 ≡ none)
    × (q ≡ insertion sha256 (prepare_enqueue request).0 (new_opaque_id entropy err).0)
Sends sha256 (call_claim request entropy err) q =
    (validate_claim request ≡ none)
    × (valid_lease_token (new_opaque_id entropy err).0 ≡ true)
    × (q ≡ hands_out request (new_opaque_id entropy err).0)
Sends sha256 (call_heartbeat lease duration) q =
    (validate_lease lease ≡ none)
    × (validate_lease_duration duration ≡ none)
    × (q ≡ heartbeat_statement lease.job_id lease.token (microseconds duration))
Sends sha256 (call_complete lease) q =
    (validate_lease lease ≡ none)
    × (q ≡ job_statement (complete_statement lease.job_id lease.token))
Sends sha256 (call_fail lease failure) q =
    (validate_lease lease ≡ none) × (validate_failure failure ≡ none) × (q ≡ fails lease failure)
Sends sha256 (call_get id) q = (validate_job_id id ≡ none) × (q ≡ job_statement (get_statement id))
Sends sha256 (call_counts queue) q = ⊥
Sends sha256 (call_list_dead queue cursor limit) q = ⊥
Sends sha256 (call_cancel id) q =
    (validate_job_id id ≡ none)
    × ((q ≡ job_statement (cancel_statement id)) ⊎ (q ≡ job_statement (get_statement id)))
Sends sha256 (call_redrive id) q =
    (validate_job_id id ≡ none)
    × ((q ≡ job_statement (redrive_statement id)) ⊎ (q ≡ job_statement (get_statement id)))

-- A property of the database's state that its operations keep, if they are asked only for statements
-- that are allowed.
pub record Preserves {S : Type 0} (allowed : Statement → Type 0) (P : S → Type 0)
    (database : Database S) : Type 0 where
  pub begin_tx : (s : S) → P s → P (database.begin_tx s).1
  pub commit : (s : S) → P s → P (database.commit s).1
  pub rollback : (s : S) → P s → P (database.rollback s).1
  pub query_job :
      (statement : JobStatement) (s : S)
      → allowed (job_statement statement)
      → P s
      → P (database.query_job statement s).1
  pub query_idempotent_job :
      (queue key : Bytes) (s : S) → P s → P (database.query_idempotent_job queue key s).1
  pub query_heartbeat :
      (id token : Bytes) (micros : ℤ) (s : S)
      → allowed (heartbeat_statement id token micros)
      → P s
      → P (database.query_heartbeat id token micros s).1
  pub query_lease_state : (id : Bytes) (s : S) → P s → P (database.query_lease_state id s).1
  pub query_counts : (queue : Bytes) (s : S) → P s → P (database.query_counts queue s).1
  pub query_dead :
      (queue : Bytes) (time : Option Time) (id : Bytes) (limit : ℤ) (s : S)
      → P s
      → P (database.query_dead queue time id limit s).1
