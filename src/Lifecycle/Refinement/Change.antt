-- ===== src/Lifecycle/Refinement/Change.antt =====
-- leaseMutation inside its transaction: a fenced UPDATE, and a look at the state if it found no row.
use gotth_jobs.Common.{
  ◌≡◌, refl, ◌∙◌, true, false, none, some, [], ◌∷◌, select, length, All, In, arith,
}
use gotth_jobs.Bytes.{Bytes, bytes_eq, codes}
use gotth_jobs.Types.{Job, Lease, zero_job, State}
use gotth_jobs.Errors.{Err, Result, ok, failed, ◌>>=◌, sentinel, no_rows, is, not_found}
use gotth_jobs.Rows.{scan_job, scan_bounded}
use gotth_jobs.Table.{Row, Table, IsConsistent, satisfies_checks, attempt_checks}
use gotth_jobs.Table.Update.{Keeps, update}
use gotth_jobs.Table.Lookup.{put}
use gotth_jobs.Table.Decoded.{job_of, IsReadable}
use gotth_jobs.Table.Decoded.Scan.{state_round, state_scan}
use gotth_jobs.Table.Statements.{Session, holds_lease}
use gotth_jobs.Table.Statements.Checks.{checked→}
use gotth_jobs.Postgres.{Database, JobStatement}
use gotth_jobs.Engine.{execute_job}
use gotth_jobs.Engine.Serving.{Serves, state_column}
use gotth_jobs.Engine.Serving.Updates.{update-changed, update-unmet}
use gotth_jobs.Table.Statements.Fencing.{holds_lease-id}
use gotth_jobs.Lifecycle.{classified, classify_lease, mutated, mutate_lease, rejection}
use gotth_jobs.Lifecycle.Refinement.{lost}
use gotth_jobs.Lifecycle.Refinement.Transaction.{Leaves}

rejection-lost :
    (r : Row) (s : State)
    → r.state ≡ s
    → attempt_checks r.state r.attempts r.max_attempts ≡ true
    → rejection s ≡ sentinel (lost r)
unfolding rejection lost attempt_checks
rejection-lost r s e h = ground (arith, e)

-- The state that a row of the table has is read as it is.
pub classified-row :
    (r : Row)
    → satisfies_checks r ≡ true
    → classified (state_column (r ∷ []) >>= scan_bounded 1 (length (codes "succeeded")))
      ≡ sentinel (lost r)
unfolding classified state_column
classified-row r h =
    let c = (checked→ r h).attempted in
    rw
      (
        state_scan r.state r.attempts r.max_attempts c,
        state_round r.state r.attempts r.max_attempts c,
      )
      (rejection-lost r r.state refl c)

-- No row is no job.
pub classified-missing :
    classified (state_column [] >>= scan_bounded 1 (length (codes "succeeded")))
    ≡ sentinel not_found
unfolding classified state_column gotth_jobs.Errors.is
classified-missing = refl

module _ {S : Type 0} (database : Database S) (session : Session) (refused : Err)
    (serves : Serves database session refused) (id : Bytes) where
  mutated_answers :
      (x : Result Job) (job : Job) (s : S) (base t : Table)
      → x ≡ ok job
      → serves.committed s ≡ base
      → serves.copy s ≡ some t
      → Leaves database session refused serves (mutated database id x s) base (job, none) t
  unfolding mutated
  mutated_answers (ok j) job s base t e b c = record { answer = cc e; below = b; copy = c }
  mutated_answers (failed err) job s base t e b c = cc

  mutated_rejects :
      (x : Result Job) (err : Err) (s : S) (base t : Table)
      → x ≡ failed (sentinel no_rows)
      → serves.committed s ≡ base
      → serves.copy s ≡ some t
      → classified (
          state_column (select (λ r. bytes_eq r.id id) t)
          >>= scan_bounded 1 (length (codes "succeeded")))
        ≡ err
      → Leaves database session refused serves (mutated database id x s) base (zero_job, some err) t
  unfolding mutated classify_lease is
  mutated_rejects x err s base t e b c k =
      let (column, below, copy) = serves.reads id s t c in
      rw e record { answer = rw (column, k) refl; below = below ∙ b; copy = copy }

module _ {S : Type 0} (database : Database S) (session : Session) (refused : Err)
    (serves : Serves database session refused) (lease : Lease) (change : Row → Row)
    (statement : JobStatement)
    (runs : (t : Table)
      → execute_job session statement t
        ≡ update (holds_lease session lease.job_id lease.token) change t)
    (s : S) (t : Table) (open_copy : serves.copy s ≡ some t) (c : IsConsistent t) where
  -- The lease is held: the new row of the job is stored in the copy and answered.
  pub mutate_lease-held :
      (r : Row)
      → In r t
      → r.id ≡ lease.job_id
      → holds_lease session lease.job_id lease.token r ≡ true
      → All (Keeps (holds_lease session lease.job_id lease.token) change) t
      → ((y : Row) → (change y).id ≡ y.id)
      → IsReadable (change r)
      → Leaves database session refused serves
          (mutate_lease database lease.job_id statement s)
          (serves.committed s)
          (job_of (change r), none)
          (put (change r) t)
  unfolding mutate_lease
  mutate_lease-held r m i h keep same readable =
      let u =
        update-changed database session refused serves s t open_copy statement
          (holds_lease session lease.job_id lease.token) change (runs t) lease.job_id r c m i h
          (holds_lease-id session lease.job_id lease.token) keep same readable in
      mutated_answers database session refused serves lease.job_id
        ((database.query_job statement s).0 >>= scan_job) (job_of (change r))
        (database.query_job statement s).1 (serves.committed s) (put (change r) t) u.read u.below
        u.copy

  -- Nobody holds the lease: the copy stays, and the answer says what the state of the job says.
  pub mutate_lease-rejected :
      (err : Err)
      → All (λ r. holds_lease session lease.job_id lease.token r ≡ false) t
      → classified (
          state_column (select (λ r. bytes_eq r.id lease.job_id) t)
          >>= scan_bounded 1 (length (codes "succeeded")))
        ≡ err
      → Leaves database session refused serves
          (mutate_lease database lease.job_id statement s)
          (serves.committed s)
          (zero_job, some err)
          t
  unfolding mutate_lease
  mutate_lease-rejected err free k =
      let u =
        update-unmet database session refused serves s t open_copy statement
          (holds_lease session lease.job_id lease.token) change (runs t) free in
      mutated_rejects database session refused serves lease.job_id
        ((database.query_job statement s).0 >>= scan_job) err (database.query_job statement s).1
        (serves.committed s) t u.read u.below u.copy k
