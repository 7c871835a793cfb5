-- ===== src/Enqueue/Refinement.antt =====
-- Enqueue and EnqueueTx of pkg/jobs/enqueue.go as abstract operations on the table.
pub mod Insertion
pub mod Valid
pub mod Offers
pub mod Calls
pub mod Joined
use gotth_jobs.Common.{
  ℕ, ℤ, Option, none, some, Bool, true, false, if◌then◌else◌, ◌∷◌, [], pos_part,
}
use gotth_jobs.Bytes.{Bytes, bytes_eq}
use gotth_jobs.Types.{EnqueueRequest}
use gotth_jobs.Errors.{Err, sentinel, idempotency_conflict}
use gotth_jobs.Values.{copied}
use gotth_jobs.Table.{Row, Table, of_time, map_option}
use gotth_jobs.Table.Decoded.{job_of}
use gotth_jobs.Table.Statements.{Session, new_row, conflicts}
use gotth_jobs.Enqueue.{EnqueueResult, no_result, available_argument}

unfoldable pub first_where : (Row → Bool) → Table → Option Row
first_where p [] = none
first_where p (r ∷ t) = if p r then some r else first_where p t

-- The row of a request: its fields, and the defaults of a pending job.
abbrev pub requested : Session → EnqueueRequest → Bytes → Bytes → Row
requested session request id fingerprint =
    new_row session id request.queue request.kind (copied request.payload) request.idempotency_key
      fingerprint (pos_part request.max_attempts)
      (map_option of_time (available_argument request.available_at))

-- With a row of the same queue and key there: its job, if it was made from the same request.
unfoldable pub offered : Row → Table → Option Row → (EnqueueResult × Option Err) × Table
offered new t none = ((record { job = job_of new; created = true }, none), new ∷ t)
offered new t (some r) =
    if bytes_eq r.request_fingerprint new.request_fingerprint
    then ((record { job = job_of r; created = false }, none), t)
    else ((no_result, some (sentinel idempotency_conflict)), t)

-- The new row is stored, unless a row of the same queue and key is there.
unfoldable pub offer : Row → Table → (EnqueueResult × Option Err) × Table
unfolding offered first_where
offer new t = offered new t (first_where (conflicts new) t)
