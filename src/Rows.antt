-- ===== src/Rows.antt =====
-- pkg/jobs/rows.go: decoding a database row and the checks on what it holds. The columns are what
-- pgx hands to the scanners: `none` is SQL NULL.
pub mod Stored
use gotth_jobs.Common.{
  ℕ, ℤ, pos, Bool, true, false, not, ◌&&◌, ◌||◌, Option, none, some, [], String, ltb, ◌==◌,
  if◌then◌else◌, leb_ℤ, ltb_ℤ, eqb_ℤ, length, List, ◌∷◌,
}
use gotth_jobs.Bytes.{Bytes, bytes_eq, contains_nul, codes}
use gotth_jobs.Types.{
  State, pending, running, succeeded, dead, canceled, other, Time, Lease, Job, zero_time,
  zero_lease, max_queue_bytes, max_kind_bytes, max_worker_bytes, max_idempotency_key_bytes,
  max_payload_bytes, max_failure_bytes, max_attempts_limit,
}
use gotth_jobs.Errors.{
  Err, sentinel, stored_job_unknown_state, check, ◌<|>◌, plain_error, wrapped, Result, ok, failed,
  ◌>>=◌, ◌>>◌, guard, first_error,
}
use gotth_jobs.Values.{is_zero, is_postgresql_timestamp, validate_name}
use gotth_jobs.Values.Utf8.{valid_utf8}
use gotth_jobs.Values.Identifiers.{valid_job_id, valid_lease_token}

-- The columns of `jobColumns`, in that order.
pub record RawRow : Type 0 where
  pub id : Option Bytes
  pub queue : Option Bytes
  pub kind : Option Bytes
  pub payload : Option Bytes
  pub idempotency_key : Option Bytes
  pub state : Option Bytes
  pub attempts : ℤ
  pub max_attempts : ℤ
  pub available_at : Option Time
  pub created_at : Option Time
  pub updated_at : Option Time
  pub lease_token : Option Bytes
  pub lease_owner : Option Bytes
  pub lease_until : Option Time
  pub last_error : Option Bytes
  pub finished_at : Option Time

-- The length test that the two scanners share.
abbrev outside : ℕ → ℕ → Bytes → Bool
outside minimum maximum source = ltb (length source) minimum || ltb maximum (length source)

-- boundedBytesScanner.ScanBytes, and boundedTextScanner.ScanBytes where NULL is refused.
unfoldable pub scan_bounded : ℕ → ℕ → Option Bytes → Result Bytes
scan_bounded minimum maximum none = failed (plain_error "stored job column is NULL")
scan_bounded minimum maximum (some source) =
    if outside minimum maximum source
    then failed (plain_error "stored job column violates the schema length contract")
    else ok source

-- boundedTextScanner.ScanBytes of a nullable column: `none` is "not present".
unfoldable pub scan_nullable : ℕ → ℕ → Option Bytes → Result (Option Bytes)
scan_nullable minimum maximum none = ok none
scan_nullable minimum maximum (some source) =
    if outside minimum maximum source
    then failed (plain_error "stored job column violates the schema length contract")
    else ok (some source)

-- The conversion of a Go string to `State`, and back.
unfoldable pub state_of_text : Bytes → State
state_of_text text =
    if bytes_eq text (codes "pending")
    then pending
    else (if bytes_eq text (codes "running")
        then running
        else (if bytes_eq text (codes "succeeded")
            then succeeded
            else (if bytes_eq text (codes "dead")
                then dead
                else (if bytes_eq text (codes "canceled") then canceled else other text))))

unfoldable pub state_text : State → Bytes
state_text pending = codes "pending"
state_text running = codes "running"
state_text succeeded = codes "succeeded"
state_text dead = codes "dead"
state_text canceled = codes "canceled"
state_text (other text) = text

-- A text that is the empty string where the column is NULL.
abbrev pub or_empty : Option Bytes → Bytes
or_empty none = []
or_empty (some text) = text

-- The lease of a row with a token.
abbrev pub lease_of : Bytes → Option Bytes → Lease
lease_of id none = zero_lease
lease_of id (some token) = record { job_id = id; token = token }

-- t.UTC()
abbrev pub utc : Time → Time
utc t = record t { in_utc = true }

unfoldable pub require_time : Option Time → Result Time
require_time none = failed (plain_error "stored job has NULL mandatory timestamp")
require_time (some t) = ok t

unfoldable pub optional_time : String → Option Time → Result Time
optional_time text none = ok zero_time
optional_time text (some t) =
    if is_postgresql_timestamp (utc t) then ok (utc t) else failed (plain_error text)

unfoldable pub is_terminal : State → Bool
is_terminal pending = false
is_terminal running = false
is_terminal succeeded = true
is_terminal dead = true
is_terminal canceled = true
is_terminal (other text) = false

-- Whether the attempts of a job do not fit its state.
unfoldable pub attempts_misfit : State → ℤ → ℤ → Bool
attempts_misfit pending attempts maximum = leb_ℤ maximum attempts
attempts_misfit running attempts maximum = eqb_ℤ attempts (pos 0)
attempts_misfit succeeded attempts maximum = eqb_ℤ attempts (pos 0)
attempts_misfit dead attempts maximum = eqb_ℤ attempts (pos 0)
attempts_misfit canceled attempts maximum = false
attempts_misfit (other text) attempts maximum = false

unfoldable pub has_lease : Job → Bool
has_lease job =
    not (bytes_eq job.lease.job_id [] && bytes_eq job.lease.token [])
    || not (length job.lease_owner == 0)
    || not (is_zero job.lease_until)

unfoldable pub lacks_lease : Job → Bool
lacks_lease job =
    not (bytes_eq job.lease.job_id job.id)
    || not (valid_lease_token job.lease.token)
    || length job.lease_owner == 0
    || ltb max_worker_bytes (length job.lease_owner)
    || is_zero job.lease_until

unfoldable pub idle_lease : Job → Option Err
unfolding has_lease
idle_lease job = check (has_lease job) (plain_error "stored non-running job has lease state")

-- The `switch` on the state.
unfoldable pub lease_check : State → Job → Option Err
unfolding idle_lease lacks_lease
lease_check running job =
    check (lacks_lease job) (plain_error "stored running job has invalid lease state")
lease_check (other text) job = some (sentinel stored_job_unknown_state)
lease_check pending job = idle_lease job
lease_check succeeded job = idle_lease job
lease_check dead job = idle_lease job
lease_check canceled job = idle_lease job

abbrev pub contract : Option Err → Option Err
contract none = none
contract (some err) = some (wrapped "stored job violates the schema contract" err)

unfoldable pub bad_text : Bytes → Bool
bad_text text = not (valid_utf8 text) || contains_nul text

unfoldable pub out_of_bounds : Job → Bool
out_of_bounds job =
    ltb max_payload_bytes (length (or_empty job.payload))
    || ltb max_idempotency_key_bytes (length job.idempotency_key)
    || ltb max_failure_bytes (length job.last_error)
    || ltb_ℤ job.attempts (pos 0)
    || ltb_ℤ job.max_attempts job.attempts
    || ltb_ℤ job.max_attempts (pos 1)
    || ltb_ℤ (pos max_attempts_limit) job.max_attempts

unfoldable pub is_nil : Option Bytes → Bool
is_nil none = true
is_nil (some b) = false

unfoldable pub optional_misfit : Time → Bool
optional_misfit t = not (is_zero t) && not (is_postgresql_timestamp t)

-- terminal == job.FinishedAt.IsZero()
abbrev pub same_truth : Bool → Bool → Bool
same_truth true b = b
same_truth false b = not b

-- The checks of validateStoredJob in their order; the first that fails is returned.
unfoldable pub stored_checks : Job → List (Option Err)
unfolding attempts_misfit lease_check bad_text out_of_bounds is_nil optional_misfit is_terminal
stored_checks job =
    check (not (valid_job_id job.id)) (plain_error "stored job ID violates the schema contract")
    ∷ contract (validate_name "stored queue" job.queue max_queue_bytes)
    ∷ contract (validate_name "stored kind" job.kind max_kind_bytes)
    ∷ check (is_nil job.payload) (plain_error "stored job payload is NULL")
    ∷ check (out_of_bounds job) (plain_error "stored job violates the schema contract")
    ∷ check
        (not (is_postgresql_timestamp job.available_at)
          || not (is_postgresql_timestamp job.created_at)
          || not (is_postgresql_timestamp job.updated_at))
        (plain_error "stored job has invalid mandatory timestamp")
    ∷ check (optional_misfit job.lease_until || optional_misfit job.finished_at)
        (plain_error "stored job has invalid optional timestamp")
    ∷ check (bad_text job.idempotency_key || bad_text job.lease_owner || bad_text job.last_error)
        (plain_error "stored job has invalid text")
    ∷ check (attempts_misfit job.state job.attempts job.max_attempts)
        (plain_error "stored job has invalid state and attempt combination")
    ∷ lease_check job.state job
    ∷ check (same_truth (is_terminal job.state) (is_zero job.finished_at))
        (plain_error "stored job has invalid terminal timestamp state")
    ∷ []

unfoldable pub validate_stored_job : Job → Option Err
unfolding stored_checks first_error
validate_stored_job job = first_error (stored_checks job)

-- scanJobRow: the scanners in column order, then the timestamps, then validateStoredJob.
unfoldable pub scan_job : RawRow → Result Job
scan_job row = do
  id ← scan_bounded 32 32 row.id
  queue ← scan_bounded 1 max_queue_bytes row.queue
  kind ← scan_bounded 1 max_kind_bytes row.kind
  payload ← scan_bounded 0 max_payload_bytes row.payload
  key ← scan_nullable 1 max_idempotency_key_bytes row.idempotency_key
  state ← scan_bounded 1 (length (codes "succeeded")) row.state
  token ← scan_nullable 64 64 row.lease_token
  owner ← scan_nullable 1 max_worker_bytes row.lease_owner
  last_error ← scan_bounded 0 max_failure_bytes row.last_error
  available_at ← require_time row.available_at
  created_at ← require_time row.created_at
  updated_at ← require_time row.updated_at
  lease_until ← optional_time "stored job has invalid lease timestamp" row.lease_until
  finished_at ← optional_time "stored job has invalid finished timestamp" row.finished_at
  let job : Job = record {
    id = id;
    queue = queue;
    kind = kind;
    payload = some payload;
    idempotency_key = or_empty key;
    state = state_of_text state;
    attempts = row.attempts;
    max_attempts = row.max_attempts;
    available_at = utc available_at;
    created_at = utc created_at;
    updated_at = utc updated_at;
    lease = lease_of id token;
    lease_owner = or_empty owner;
    lease_until = lease_until;
    last_error = last_error;
    finished_at = finished_at;
  }
  guard (validate_stored_job job)
  ok job

-- scanJobWithFingerprint: the fingerprint column is scanned first.
unfoldable pub scan_job_with_fingerprint : Option Bytes → RawRow → Result (Bytes × Job)
unfolding scan_bounded
scan_job_with_fingerprint fingerprint row = do
  stored ← scan_bounded 32 32 fingerprint
  job ← scan_job row
  ok (stored, job)
