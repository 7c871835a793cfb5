-- ===== src/Types.antt =====
-- pkg/jobs/types.go: limits, the lifecycle states, jobs, leases and requests. A Go string or byte
-- slice is its list of bytes, a slice that may be nil an `Option`. A duration counts nanoseconds,
-- and a `time.Time` is the instant that Go stores: seconds since 1 January of year 1 in UTC,
-- nanoseconds within the second, and whether its location is UTC.
use gotth_jobs.Common.{ℕ, ℤ, pos, Bool, true, Option, none, []}
use gotth_jobs.Bytes.{Bytes}

abbrev pub max_queue_bytes : ℕ
max_queue_bytes = 128

abbrev pub max_kind_bytes : ℕ
max_kind_bytes = 128

abbrev pub max_worker_bytes : ℕ
max_worker_bytes = 256

abbrev pub max_idempotency_key_bytes : ℕ
max_idempotency_key_bytes = 256

abbrev pub max_payload_bytes : ℕ
max_payload_bytes = 1048576

abbrev pub max_failure_bytes : ℕ
max_failure_bytes = 4096

abbrev pub max_attempts_limit : ℕ
max_attempts_limit = 100

abbrev pub max_dead_page : ℕ
max_dead_page = 100

-- Nanoseconds in Go's duration units.
abbrev pub microsecond : ℕ
microsecond = 1000

abbrev pub min_lease_duration : ℕ
min_lease_duration = 1000000000

abbrev pub max_lease_duration : ℕ
max_lease_duration = 3600000000000

abbrev pub max_retry_delay : ℕ
max_retry_delay = 86400000000000

-- `State` is a Go string: `other` holds any text but the five documented ones.
pub data State : Type 0 where
  pending running succeeded dead canceled : State
  other : Bytes → State

pub record Time : Type 0 where
  pub seconds : ℤ
  pub nanosecond : ℕ
  pub in_utc : Bool

abbrev pub zero_time : Time
zero_time = record { seconds = pos 0; nanosecond = 0; in_utc = true }

pub record Lease : Type 0 where
  pub job_id : Bytes
  pub token : Bytes

abbrev pub zero_lease : Lease
zero_lease = record { job_id = []; token = [] }

pub record Job : Type 0 where
  pub id : Bytes
  pub queue : Bytes
  pub kind : Bytes
  pub payload : Option Bytes
  pub idempotency_key : Bytes
  pub state : State
  pub attempts : ℤ
  pub max_attempts : ℤ
  pub available_at : Time
  pub created_at : Time
  pub updated_at : Time
  pub lease : Lease
  pub lease_owner : Bytes
  pub lease_until : Time
  pub last_error : Bytes
  pub finished_at : Time

-- Job{}
abbrev pub zero_job : Job
zero_job = record {
  id = [];
  queue = [];
  kind = [];
  payload = none;
  idempotency_key = [];
  state = other [];
  attempts = pos 0;
  max_attempts = pos 0;
  available_at = zero_time;
  created_at = zero_time;
  updated_at = zero_time;
  lease = zero_lease;
  lease_owner = [];
  lease_until = zero_time;
  last_error = [];
  finished_at = zero_time;
}

pub record EnqueueRequest : Type 0 where
  pub queue : Bytes
  pub kind : Bytes
  pub payload : Option Bytes
  pub idempotency_key : Bytes
  pub max_attempts : ℤ
  pub available_at : Time

pub record ClaimRequest : Type 0 where
  pub queue : Bytes
  pub worker : Bytes
  pub lease_duration : ℤ

pub record Failure : Type 0 where
  pub message : Bytes
  pub retry_after : ℤ
  pub permanent : Bool

pub record DeadCursor : Type 0 where
  pub finished_at : Time
  pub id : Bytes

pub record Counts : Type 0 where
  pub pending : ℤ
  pub running : ℤ
  pub succeeded : ℤ
  pub dead : ℤ
  pub canceled : ℤ

pub record RetryPolicy : Type 0 where
  pub initial : ℤ
  pub maximum : ℤ
