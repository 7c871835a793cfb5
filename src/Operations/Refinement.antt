-- ===== src/Operations/Refinement.antt =====
-- Get, ListDead, Cancel and Redrive of pkg/jobs/operations.go as abstract operations on the table.
pub mod Steps
pub mod Cancel
pub mod Redrive
pub mod Reading
pub mod Paging
use gotth_jobs.Common.{Option, none, some, ◌≡◌}
use gotth_jobs.Bytes.{Bytes}
use gotth_jobs.Types.{State, pending, running, succeeded, dead, canceled, other, Job, zero_job}
use gotth_jobs.Errors.{Err, sentinel, not_found, state_conflict}
use gotth_jobs.Table.{Row, Table}
use gotth_jobs.Table.Decoded.{job_of}
use gotth_jobs.Table.Lookup.{find_row, put}
use gotth_jobs.Table.Statements.{Session, cancel_row, redrive_row}

abbrev pub Outcome : Type 0
Outcome = (Job × Option Err) × Table

-- A row is replaced by `new`, which is answered.
abbrev replaced : Row → Table → Outcome
replaced new t = ((job_of new, none), put new t)

abbrev conflict : Table → Outcome
conflict t = ((zero_job, some (sentinel state_conflict)), t)

abbrev missing : Table → Outcome
missing t = ((zero_job, some (sentinel not_found)), t)

-- Jobs that wait or run are canceled, and a canceled one is answered again.
unfoldable pub canceled_from : Session → Table → Row → State → Outcome
unfolding cancel_row
canceled_from session t r pending = replaced (cancel_row session r) t
canceled_from session t r running = replaced (cancel_row session r) t
canceled_from session t r canceled = ((job_of r, none), t)
canceled_from session t r succeeded = conflict t
canceled_from session t r dead = conflict t
canceled_from session t r (other text) = conflict t

unfoldable pub canceled_one : Session → Table → Option Row → Outcome
unfolding canceled_from
canceled_one session t none = missing t
canceled_one session t (some r) = canceled_from session t r r.state

unfoldable pub cancellation : Session → Bytes → Table → Outcome
unfolding canceled_one
cancellation session id t = canceled_one session t (find_row id t)

-- Only dead jobs are redriven.
unfoldable pub redriven_from : Session → Table → Row → State → Outcome
unfolding redrive_row
redriven_from session t r dead = replaced (redrive_row session r) t
redriven_from session t r pending = conflict t
redriven_from session t r running = conflict t
redriven_from session t r succeeded = conflict t
redriven_from session t r canceled = conflict t
redriven_from session t r (other text) = conflict t

unfoldable pub redriven_one : Session → Table → Option Row → Outcome
unfolding redriven_from
redriven_one session t none = missing t
redriven_one session t (some r) = redriven_from session t r r.state

unfoldable pub redrival : Session → Bytes → Table → Outcome
unfolding redriven_one
redrival session id t = redriven_one session t (find_row id t)
