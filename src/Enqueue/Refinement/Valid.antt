-- ===== src/Enqueue/Refinement/Valid.antt =====
-- The row of a valid request satisfies the table's constraints, and its INSERT is the one of that row.
use gotth_jobs.Common.{
  String, ltb_ℤ, ℕ, ℤ, pos, negsuc, ◌≡◌, ◌≤◌, refl, true, false, ◌||◌, leb, Option, none, some, [],
  ◌∷◌, length, arith, pos_part,
}
use gotth_jobs.Bytes.{Bytes}
use gotth_jobs.Types.{EnqueueRequest, Time}
use gotth_jobs.Values.{validate_enqueue, validate_name, copied, slice_length}
use gotth_jobs.Values.Identifiers.{valid_job_id}
use gotth_jobs.Table.{
  Table, satisfies_checks, fixed_checks, attempt_checks, lease_checks, finished_shape, between,
  null_or, of_time, map_option,
}
use gotth_jobs.Table.Statements.{Session, new_row, null_if_empty, insert_row}
use gotth_jobs.Table.Statements.Checks.{→checked}
use gotth_jobs.Engine.{execute_job, insert_sql}
use gotth_jobs.Postgres.{enqueue_statement}
use gotth_jobs.Enqueue.{available_argument}
use gotth_jobs.Enqueue.Refinement.{requested}

-- What validateEnqueue checks, in the terms of the constraints.
record IsValid (request : EnqueueRequest) : Type 0 where
  queue : between 1 128 (length request.queue) ≡ true
  kind : between 1 128 (length request.kind) ≡ true
  payload : leb (length (copied request.payload)) 1048576 ≡ true
  key : length request.idempotency_key ≤ 256
  least : 1 ≤ pos_part request.max_attempts
  most : pos_part request.max_attempts ≤ 100
  sign : request.max_attempts ≡ pos (pos_part request.max_attempts)

valid_name :
    (label : String) (name : Bytes)
    → validate_name label name 128 ≡ none
    → between 1 128 (length name) ≡ true
unfolding validate_name
valid_name label name h = ground arith

length-copied : (payload : Option Bytes) → slice_length payload ≡ length (copied payload)
unfolding slice_length copied
length-copied none = refl
length-copied (some b) = refl

budget :
    (m : ℤ)
    → (ltb_ℤ m (pos 1) || ltb_ℤ (pos 100) m) ≡ false
    → (1 ≤ pos_part m) × (pos_part m ≤ 100) × (m ≡ pos (pos_part m))
budget (pos n) h = (ground arith, ground arith, refl)
budget (negsuc n) h = ground arith

validate_enqueue-IsValid :
    (request : EnqueueRequest) → validate_enqueue request ≡ none → IsValid request
unfolding validate_enqueue
validate_enqueue-IsValid request h =
    let (least, most, sign) = budget request.max_attempts (ground (arith, h)) in
    record {
      queue = valid_name "queue" request.queue (ground (arith, h));
      kind = valid_name "kind" request.kind (ground (arith, h));
      payload = ground (arith, h, length-copied request.payload);
      key = ground (arith, h);
      least = least;
      most = most;
      sign = sign;
    }

key_checked :
    (key : Bytes)
    → length key ≤ 256
    → null_or (λ k. between 1 256 (length k)) (null_if_empty key) ≡ true
key_checked [] h = refl
key_checked (b ∷ key) h = ground arith

pub requested-checked :
    (session : Session) (request : EnqueueRequest) (id fingerprint : Bytes)
    → validate_enqueue request ≡ none
    → valid_job_id id ≡ true
    → length fingerprint ≡ 32
    → satisfies_checks (requested session request id fingerprint) ≡ true
unfolding new_row fixed_checks lease_checks finished_shape attempt_checks
requested-checked session request id fingerprint h i f =
    let v = validate_enqueue-IsValid request h in
    let key = key_checked request.idempotency_key v.key in
    let queue = v.queue in
    let kind = v.kind in
    let payload = v.payload in
    let least = v.least in
    let most = v.most in
    →checked _ (record {
      fixed = ground arith;
      attempted = ground arith;
      leased = refl;
      bounded = omega arith;
      finished = refl;
    })

insert_pos :
    (session : Session) (id queue kind payload key fingerprint : Bytes) (m : ℤ) (n : ℕ)
    (available : Option Time) (t : Table)
    → m ≡ pos n
    → execute_job session
        (enqueue_statement id queue kind (some payload) key fingerprint m available)
        t
      ≡ insert_row
          (new_row session id queue kind payload key fingerprint n (map_option of_time available))
          t
unfolding execute_job insert_sql
insert_pos session id queue kind payload key fingerprint m n available t e = rw e refl

pub execute_job-requested :
    (session : Session) (request : EnqueueRequest) (id fingerprint : Bytes) (t : Table)
    → validate_enqueue request ≡ none
    → execute_job session
        (enqueue_statement id request.queue request.kind
          (some (copied request.payload))
          request.idempotency_key
          fingerprint
          request.max_attempts
          (available_argument request.available_at))
        t
      ≡ insert_row (requested session request id fingerprint) t
execute_job-requested session request id fingerprint t h =
    insert_pos session id request.queue request.kind (copied request.payload)
      request.idempotency_key fingerprint request.max_attempts (pos_part request.max_attempts)
      (available_argument request.available_at) t (validate_enqueue-IsValid request h).sign
