-- ===== src/Operations/Refinement/Redrive.antt =====
-- Redrive does to the committed table what the abstract redrival does, and answers the same.
use gotth_jobs.Common.{◌≡◌, refl, true, false, Option, none, some, All, All-of, All-at, In, arith}
use gotth_jobs.Bytes.{Bytes, bytes_eq→eq, bytes_eq_self}
use gotth_jobs.Types.{zero_job, State, pending, running, succeeded, dead, canceled, other}
use gotth_jobs.Errors.{Err, ok, failed, ◌>>=◌, sentinel, no_rows, not_found, state_conflict, is}
use gotth_jobs.Rows.{scan_job}
use gotth_jobs.Values.Identifiers.{validate_job_id}
use gotth_jobs.Table.{Row, Table, IsConsistent}
use gotth_jobs.Table.Update.{update}
use gotth_jobs.Table.Lookup.{find_row, find_row-some, put}
use gotth_jobs.Table.Decoded.{job_of, IsReadable}
use gotth_jobs.Table.Statements.{
  Session, redrivable, redrive_row, redrive_sql, redrivable, redrive_row, redrive_sql, in_state,
}
use gotth_jobs.Table.Statements.Checks.{redrive_row-checked, redrive_row-checked}
use gotth_jobs.Postgres.{Context, Database, redrive_statement, redrive_statement, transact}
use gotth_jobs.Engine.{execute_job}
use gotth_jobs.Engine.Serving.{Serves}
use gotth_jobs.Engine.Serving.Updates.{
  update-changed, update-unmet, unmet-missing, unmet-other, get-found, get-missing, Selects,
}
use gotth_jobs.Lifecycle.Refinement.Transaction.{
  Performs, transact_stores, transact_forgets, Leaves,
}
use gotth_jobs.Operations.{redrive_read, redrive_job, redrive}
use gotth_jobs.Operations.Refinement.{
  redriven_from, redriven_one, redrival, redriven_from, redriven_one, redrival,
}
use gotth_jobs.Operations.Refinement.Steps.{
  redriven_row-ok, redriven_row-read, redriven_row-ok, redriven_row-read,
}

redrivable-Selects : (id : Bytes) → Selects (redrivable id) id
unfolding redrivable
redrivable-Selects id y h = ground (arith, bytes_eq→eq y.id id)

module _ {S : Type 0} (database : Database S) (session : Session) (refused : Err)
    (serves : Serves database session refused) (id : Bytes) (s : S) (t : Table)
    (o : serves.copy s ≡ some t) (c : IsConsistent t) where
  runs_redrive :
      execute_job session (redrive_statement id) t ≡ update (redrivable id) (redrive_row session) t
  unfolding execute_job redrive_sql
  runs_redrive = refl

  redrive_job-changed :
      (r : Row)
      → In r t
      → r.id ≡ id
      → redrivable id r ≡ true
      → IsReadable (redrive_row session r)
      → Leaves database session refused serves
          (redrive_job database id s)
          (serves.committed s)
          (job_of (redrive_row session r), none)
          (put (redrive_row session r) t)
  unfolding redrive_job
  redrive_job-changed r m i h readable =
      let u =
        update-changed database session refused serves s t o (redrive_statement id) (redrivable id)
          (redrive_row session) runs_redrive id r c m i h (redrivable-Selects id)
          (All-of _ t (λ y _. redrive_row-checked session id y)) (λ y. unfold redrive_row in refl)
          readable in
      redriven_row-ok database session refused serves id
        ((database.query_job (redrive_statement id) s).0 >>= scan_job)
        (job_of (redrive_row session r)) (database.query_job (redrive_statement id) s).1
        (serves.committed s) _ u.read u.below u.copy

  redrive_job-kept :
      (r : Row)
      → In r t
      → r.id ≡ id
      → redrivable id r ≡ false
      → IsReadable r
      → Leaves database session refused serves
          (redrive_job database id s)
          (serves.committed s)
          (zero_job, some (sentinel state_conflict))
          t
  unfolding redrive_job
  redrive_job-kept r m i h readable =
      let u =
        update-unmet database session refused serves s t o (redrive_statement id) (redrivable id)
          (redrive_row session) runs_redrive
          (unmet-other (redrivable id) id t r (redrivable-Selects id) c.unique m i h) in
      redriven_row-read database session refused serves id
        ((database.query_job (redrive_statement id) s).0 >>= scan_job) (ok (job_of r))
        (database.query_job (redrive_statement id) s).1 (serves.committed s) t
        (some (sentinel state_conflict)) u.read u.below u.copy
        (get-found database session refused serves (database.query_job (redrive_statement id) s).1 t
          u.copy id r c m i readable)
        (unfold redrive_read in refl)

  redrive_job-missing :
      find_row id t ≡ none
      → Leaves database session refused serves
          (redrive_job database id s)
          (serves.committed s)
          (zero_job, some (sentinel not_found))
          t
  unfolding redrive_job
  redrive_job-missing e =
      let u =
        update-unmet database session refused serves s t o (redrive_statement id) (redrivable id)
          (redrive_row session) runs_redrive
          (unmet-missing (redrivable id) id t (redrivable-Selects id) e) in
      redriven_row-read database session refused serves id
        ((database.query_job (redrive_statement id) s).0 >>= scan_job) (failed (sentinel no_rows))
        (database.query_job (redrive_statement id) s).1 (serves.committed s) t
        (some (sentinel not_found)) u.read u.below u.copy
        (get-missing database session refused serves (database.query_job (redrive_statement id) s).1
          t u.copy id e)
        (unfold redrive_read is in refl)

module _ {S : Type 0} (database : Database S) (session : Session) (refused : Err)
    (serves : Serves database session refused) (ctx : Context) (id : Bytes) (s : S)
    (c : IsConsistent (serves.committed s)) (readable : All IsReadable (serves.committed s))
    (changed : All (λ r. IsReadable (redrive_row session r)) (serves.committed s)) where
  redrive_replaces :
      (r : Row)
      → find_row id (serves.committed s) ≡ some r
      → redrivable id r ≡ true
      → Performs serves.committed
          (transact database zero_job (some ctx) (redrive_job database id) s)
          ((job_of (redrive_row session r), none), put (redrive_row session r) (serves.committed s))
  redrive_replaces r e h =
      let (_, below, copy) = serves.begins s in
      let (m, i) = find_row-some id (serves.committed s) r e in
      transact_stores database session refused serves zero_job (job_of (redrive_row session r)) ctx
        (redrive_job database id) s _
        (rw below at (
          redrive_job-changed database session refused serves id (database.begin_tx s).1
            (serves.committed s) copy c r m i h
            (All-at (λ y. IsReadable (redrive_row session y)) (serves.committed s) r changed m)))

  redrive_keeps :
      (r : Row)
      → find_row id (serves.committed s) ≡ some r
      → redrivable id r ≡ false
      → Performs serves.committed
          (transact database zero_job (some ctx) (redrive_job database id) s)
          ((zero_job, some (sentinel state_conflict)), serves.committed s)
  redrive_keeps r e h =
      let (_, below, copy) = serves.begins s in
      let (m, i) = find_row-some id (serves.committed s) r e in
      transact_forgets database session refused serves zero_job zero_job (sentinel state_conflict)
        ctx (redrive_job database id) s (serves.committed s)
        (rw below at (
          redrive_job-kept database session refused serves id (database.begin_tx s).1
            (serves.committed s) copy c r m i h
            (All-at IsReadable (serves.committed s) r readable m)))

  redrivable_in :
      (r : Row) (st : State)
      → find_row id (serves.committed s) ≡ some r
      → r.state ≡ st
      → redrivable id r ≡ in_state st dead
  unfolding redrivable
  redrivable_in r st e q =
      let (_, i) = find_row-some id (serves.committed s) r e in rw (i, q, bytes_eq_self id) refl

  redrive_found :
      (r : Row) (st : State)
      → find_row id (serves.committed s) ≡ some r
      → r.state ≡ st
      → Performs serves.committed
          (transact database zero_job (some ctx) (redrive_job database id) s)
          (redriven_from session (serves.committed s) r st)
  unfolding redriven_from
  redrive_found r pending e q = redrive_keeps r e (redrivable_in r pending e q)
  redrive_found r running e q = redrive_keeps r e (redrivable_in r running e q)
  redrive_found r succeeded e q = redrive_keeps r e (redrivable_in r succeeded e q)
  redrive_found r canceled e q = redrive_keeps r e (redrivable_in r canceled e q)
  redrive_found r (other text) e q = redrive_keeps r e (redrivable_in r (other text) e q)
  redrive_found r dead e q = redrive_replaces r e (redrivable_in r dead e q)

  redrive_one :
      (x : Option Row)
      → find_row id (serves.committed s) ≡ x
      → Performs serves.committed
          (transact database zero_job (some ctx) (redrive_job database id) s)
          (redriven_one session (serves.committed s) x)
  unfolding redriven_one
  redrive_one none e =
      let (_, below, copy) = serves.begins s in
      transact_forgets database session refused serves zero_job zero_job (sentinel not_found) ctx
        (redrive_job database id) s (serves.committed s)
        (rw below at (
          redrive_job-missing database session refused serves id (database.begin_tx s).1
            (serves.committed s) copy c e))
  redrive_one (some r) e = redrive_found r r.state e refl

  -- On a database that serves it undisturbed, with a consistent and readable table, Redrive of a
  -- well-formed identifier answers and commits what the abstract redrival does: a dead job is pending
  -- again with its whole budget, and otherwise nothing changes and the error is ErrNotFound or
  -- ErrStateConflict.
  pub redrive-Performs :
      validate_job_id id ≡ none
      → Performs serves.committed
          (redrive (some (record { database = some database })) (some ctx) id s)
          (redrival session id (serves.committed s))
  unfolding redrive redrival
  redrive-Performs valid = rw valid (redrive_one (find_row id (serves.committed s)) refl)
