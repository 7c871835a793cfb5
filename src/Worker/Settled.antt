-- ===== src/Worker/Settled.antt =====
-- What the acknowledgement of a handler's result does on a database that serves it undisturbed.
use gotth_jobs.Lifecycle.Refinement.Fenced.{complete-Performs, fail-Performs}
use gotth_jobs.Worker.Claimed.{claimed_lease-valid, validated_worker, failure_of-valid}
use gotth_jobs.Worker.Repository.{postgresql_store}
use gotth_jobs.Lifecycle.{microseconds}
use gotth_jobs.Lifecycle.Refinement.Transaction.{Performs}
use gotth_jobs.Table.Decoded.{job_of, IsReadable}
use gotth_jobs.Worker.Message.{bounded_failure}
use gotth_jobs.Worker.Reconciliation.{store_of}
use gotth_jobs.Table.Lookup.{find_row, put}
use gotth_jobs.Bytes.{Bytes}
use gotth_jobs.Engine.Serving.{Serves}
use gotth_jobs.Table.{Row, Table, IsConsistent}
use gotth_jobs.Errors.{Err, is_permanent}
use gotth_jobs.Types.{Lease, Job}
use gotth_jobs.Postgres.{Database}
use gotth_jobs.Worker.{Worker, Store, validate_worker, validate_claimed}
use gotth_jobs.Lifecycle.Refinement.{fenced, fenced_row}
use gotth_jobs.Table.Statements.{Session, complete_row, fail_row, holds_lease}
use gotth_jobs.Worker.Attempt.{acknowledged, acknowledge, retry_delay, fail_after, failure_of}
use gotth_jobs.Common.{◌≡◌, refl, ap, ◌∙◌, true, Option, none, some, All, String, pos}

-- What the acknowledgement of a handler's result makes of the row.
unfoldable pub settled : {S : Type 0} → Session → Worker S → Store S → Job → Option Err → Row → Row
settled session worker store job none = complete_row session
settled session worker store job (some err) =
    fail_row session (bounded_failure err) (is_permanent (some err))
      (microseconds (retry_delay worker store job err).0)

fenced-held :
    (session : Session) (lease : Lease) (change : Row → Row) (t : Table) (r : Row)
    → find_row lease.job_id t ≡ some r
    → holds_lease session lease.job_id lease.token r ≡ true
    → fenced session lease change t ≡ ((job_of (change r), none), put (change r) t)
unfolding fenced fenced_row
fenced-held session lease change t r e h = rw (e, h) refl

module _ {S : Type 0} (worker : Worker S) (store : Store S) (job : Job) where
  acknowledged-none :
      (text : String) (r : (Job × Option Err) × S) (answer : Job)
      → r.0 ≡ (answer, none)
      → acknowledged worker store job text r ≡ (none, r.1)
  unfolding acknowledged
  acknowledged-none text ((a, none), s) answer e = refl
  acknowledged-none text ((a, some err), s) answer e = cc

module _ {S : Type 0} (worker : Worker S) (database : Database S) (session : Session)
    (refused : Err) (serves : Serves database session refused) (entropy : S → Bytes × Option Err)
    (valid : validate_worker worker ≡ none) where
  abbrev store : Store S
  store = store_of database entropy

  module _ (job : Job) (checked : validate_claimed job worker.queue worker.worker_id ≡ none)
      (r : Row) (s : S) (c : IsConsistent (serves.committed s))
      (stored : find_row job.lease.job_id (serves.committed s) ≡ some r)
      (held : holds_lease session job.lease.job_id job.lease.token r ≡ true) where
    acknowledged-settled :
        (text : String) (called : (Job × Option Err) × S) (change : Row → Row)
        → Performs serves.committed called (fenced session job.lease change (serves.committed s))
        → (s' : S) × (acknowledged worker store job text called ≡ (none, s'))
          × (serves.committed s' ≡ put (change r) (serves.committed s))
    acknowledged-settled text called change (answer, table) =
        let done = fenced-held session job.lease change (serves.committed s) r stored held in
        (
          called.1,
          acknowledged-none worker store job text called (job_of (change r))
              (answer ∙ ap (λ (y : (Job × Option Err) × Table). y.0) done),
          table ∙ ap (λ (y : (Job × Option Err) × Table). y.1) done,
        )

    pub acknowledge-settled :
        (handler_err : Option Err)
        → All
            (λ y. IsReadable (settled session worker store job handler_err y))
            (serves.committed s)
        → (s' : S) × (acknowledge worker store job handler_err s ≡ (none, s'))
          × (serves.committed s'
              ≡ put (settled session worker store job handler_err r) (serves.committed s))
    unfolding acknowledge fail_after failure_of settled postgresql_store
    acknowledge-settled none readable =
        acknowledged-settled "complete worker job" _ (complete_row session) (
          complete-Performs database session refused serves (record { err = none }) job.lease
            (claimed_lease-valid job worker.queue worker.worker_id checked
              (validated_worker worker valid).0)
            s c readable)
    acknowledge-settled (some err) readable =
        let (n, delayed, accepted) = failure_of-valid worker store job err valid checked in
        rw delayed (
          acknowledged-settled "fail worker job" _ _ (
            fail-Performs database session refused serves (record { err = none }) job.lease
              (claimed_lease-valid job worker.queue worker.worker_id checked
                (validated_worker worker valid).0)
              s c (failure_of worker store job err (pos n)) accepted (rw delayed at readable)))
