-- ===== src/Lifecycle/Refinement.antt =====
-- Claim, Heartbeat, Complete and Fail of pkg/jobs/lifecycle.go as abstract operations on the table.
pub mod Transaction
pub mod Change
pub mod Fenced
pub mod Claiming
pub mod Beating
use gotth_jobs.Common.{Option, none, some, ◌≡◌, if◌then◌else◌, Bool, ℤ}
use gotth_jobs.Types.{Job, Lease, zero_job, canceled}
use gotth_jobs.Errors.{Err, Sentinel, sentinel, not_found, job_canceled, lease_lost}
use gotth_jobs.Bytes.{Bytes}
use gotth_jobs.Table.{Row, Table}
use gotth_jobs.Table.Decoded.{job_of}
use gotth_jobs.Table.Lookup.{find_row, put}
use gotth_jobs.Table.Statements.{Session, holds_lease, in_state}

-- Why a job does not answer to a lease: it was canceled, or the lease is somebody else's or over.
unfoldable pub lost : Row → Sentinel
lost r = if in_state r.state canceled then job_canceled else lease_lost

-- What a fenced change answers, and the table after it: the row of the lease's job is replaced if it
-- holds the lease, and otherwise nothing changes, and the error says why.
unfoldable pub fenced_row :
    Session → Lease → (Row → Row) → Table → Option Row → (Job × Option Err) × Table
unfolding lost
fenced_row session lease change t none = ((zero_job, some (sentinel not_found)), t)
fenced_row session lease change t (some r) =
    if holds_lease session lease.job_id lease.token r
    then ((job_of (change r), none), put (change r) t)
    else ((zero_job, some (sentinel (lost r))), t)

unfoldable pub fenced : Session → Lease → (Row → Row) → Table → (Job × Option Err) × Table
unfolding fenced_row
fenced session lease change t = fenced_row session lease change t (find_row lease.job_id t)
