-- ===== src/Lifecycle/Refinement/Fenced.antt =====
-- Complete and Fail do to the committed table what their abstract operations do, and answer the same.
use gotth_jobs.Common.{
  ◌≡◌, refl, Option, none, some, All, All-of, All-at, Bool-cases, inl, inr, every-in,
}
use gotth_jobs.Types.{Lease, Failure, zero_job}
use gotth_jobs.Errors.{Err, sentinel, not_found}
use gotth_jobs.Values.{validate_failure}
use gotth_jobs.Table.{Row, Table, IsConsistent, satisfies_checks}
use gotth_jobs.Table.Update.{Keeps, update}
use gotth_jobs.Table.Lookup.{find_row, find_row-some}
use gotth_jobs.Table.Decoded.{IsReadable}
use gotth_jobs.Table.Statements.{
  Session, holds_lease, complete_row, fail_row, complete_sql, fail_sql,
}
use gotth_jobs.Table.Statements.Checks.{complete_row-checked, fail_row-checked}
use gotth_jobs.Postgres.{Context, Database, JobStatement, complete_statement, fail_statement}
use gotth_jobs.Engine.{execute_job}
use gotth_jobs.Engine.Serving.Updates.{unmet-missing, unmet-other, rows-missing, rows-found}
use gotth_jobs.Engine.Serving.{Serves}
use gotth_jobs.Engine.Legal.{fail_legal}
use gotth_jobs.Table.Statements.Fencing.{holds_lease-id}
use gotth_jobs.Lifecycle.{
  mutate_lease, lease_mutation, complete, fail, validate_lease, microseconds,
}
use gotth_jobs.Lifecycle.Refinement.{lost, fenced_row, fenced}
use gotth_jobs.Lifecycle.Refinement.Transaction.{Performs, transact_stores, transact_forgets}
use gotth_jobs.Lifecycle.Refinement.Change.{
  classified-missing, classified-row, mutate_lease-held, mutate_lease-rejected,
}

module _ {S : Type 0} (database : Database S) (session : Session) (refused : Err)
    (serves : Serves database session refused) (ctx : Context) (lease : Lease) (change : Row → Row)
    (statement : JobStatement)
    (runs : (t : Table)
      → execute_job session statement t
        ≡ update (holds_lease session lease.job_id lease.token) change t)
    (s : S) (c : IsConsistent (serves.committed s))
    (keep : All (Keeps (holds_lease session lease.job_id lease.token) change) (serves.committed s))
    (same : (y : Row) → (change y).id ≡ y.id)
    (readable : All (λ r. IsReadable (change r)) (serves.committed s)) where
  found :
      (o : Option Row)
      → find_row lease.job_id (serves.committed s) ≡ o
      → Performs serves.committed
          (lease_mutation database (some ctx) lease.job_id statement s)
          (fenced_row session lease change (serves.committed s) o)
  unfolding lease_mutation fenced_row
  found none e =
      let t = serves.committed s in
      let (_, below, copy) = serves.begins s in
      let rejected =
        mutate_lease-rejected database session refused serves lease change statement runs
          (database.begin_tx s).1 t copy c (sentinel not_found)
          (unmet-missing (holds_lease session lease.job_id lease.token) lease.job_id t
            (holds_lease-id session lease.job_id lease.token) e)
          (rw (rows-missing lease.job_id t e) classified-missing) in
      transact_forgets database session refused serves zero_job zero_job (sentinel not_found) ctx
        (mutate_lease database lease.job_id statement) s t (rw below at rejected)
  found (some r) e =
      let t = serves.committed s in
      let (_, below, copy) = serves.begins s in
      let (m, i) = find_row-some lease.job_id t r e in
      elim (Bool-cases (holds_lease session lease.job_id lease.token r)) [
        | inl h ↦
            let held =
              mutate_lease-held database session refused serves lease change statement runs
                (database.begin_tx s).1 t copy c r m i h keep same
                (All-at (λ r. IsReadable (change r)) t r readable m) in
            rw h (
              transact_stores database session refused serves zero_job _ ctx
                (mutate_lease database lease.job_id statement) s _ (rw below at held))
        | inr h ↦
            let rejected =
              mutate_lease-rejected database session refused serves lease change statement runs
                (database.begin_tx s).1 t copy c (sentinel (lost r))
                (unmet-other (holds_lease session lease.job_id lease.token) lease.job_id t r
                  (holds_lease-id session lease.job_id lease.token) c.unique m i h)
                (rw (rows-found lease.job_id t r c.unique m i)
                  (classified-row r (every-in satisfies_checks t r c.checked m))) in
            rw h (
              transact_forgets database session refused serves zero_job zero_job (sentinel (lost r))
                ctx (mutate_lease database lease.job_id statement) s t (rw below at rejected))
      ]

  pub lease_mutation-Performs :
      Performs serves.committed
        (lease_mutation database (some ctx) lease.job_id statement s)
        (fenced session lease change (serves.committed s))
  unfolding fenced
  lease_mutation-Performs = found (find_row lease.job_id (serves.committed s)) refl

module _ {S : Type 0} (database : Database S) (session : Session) (refused : Err)
    (serves : Serves database session refused) (ctx : Context) (lease : Lease)
    (valid : validate_lease lease ≡ none) (s : S) (c : IsConsistent (serves.committed s)) where
  -- On a database that serves it undisturbed, whose committed table is consistent, Complete with a
  -- well-formed lease answers and commits what the abstract completion does: the row of the job, if it
  -- holds the lease, becomes the succeeded row, which is answered decoded; otherwise nothing changes
  -- and the error is ErrNotFound, ErrCanceled or ErrLeaseLost, as the row's absence or state says. The
  -- rows must be readable, with the times that the session's clock gives.
  pub complete-Performs :
      All (λ r. IsReadable (complete_row session r)) (serves.committed s)
      → Performs serves.committed
          (complete (some (record { database = some database })) (some ctx) lease s)
          (fenced session lease (complete_row session) (serves.committed s))
  unfolding complete
  complete-Performs readable = rw valid (
      lease_mutation-Performs database session refused serves ctx lease (complete_row session)
        (complete_statement lease.job_id lease.token) (λ t. unfold execute_job complete_sql in refl)
        s c (All-of _ _ (λ r _. complete_row-checked session lease.job_id lease.token r))
        (λ y. unfold complete_row in refl) readable)

  -- On a database that serves it undisturbed, whose committed table is consistent, Fail with a
  -- well-formed lease and a valid failure answers and commits what the abstract failure does: the row
  -- that holds the lease becomes dead if the failure is permanent or the budget is used up, and pending
  -- after the delay otherwise, and is answered decoded; without such a row nothing changes and the
  -- error is ErrNotFound, ErrCanceled or ErrLeaseLost. The rows it may write must be readable.
  pub fail-Performs :
      (failure : Failure)
      → validate_failure failure ≡ none
      → All
          (λ r. IsReadable (
            fail_row session failure.message failure.permanent
              (microseconds failure.retry_after)
              r))
          (serves.committed s)
      → Performs serves.committed
          (fail (some (record { database = some database })) (some ctx) lease failure s)
          (fenced session lease
            (fail_row session failure.message failure.permanent (microseconds failure.retry_after))
            (serves.committed s))
  unfolding fail
  fail-Performs failure legal readable =
      let change =
        fail_row session failure.message failure.permanent (microseconds failure.retry_after) in
      rw (valid, legal)
        (lease_mutation-Performs database session refused serves ctx lease change
          (fail_statement lease.job_id lease.token failure.message failure.permanent
            (microseconds failure.retry_after))
          (λ t. unfold execute_job fail_sql in refl) s c
          (All-of _ _ (λ r _.
            fail_row-checked session lease.job_id lease.token failure.message failure.permanent
              (microseconds failure.retry_after) r (fail_legal failure legal)))
          (λ y. unfold fail_row in refl) readable)
