-- ===== src/Operations/Refinement/Cancel.antt =====
-- Cancel does to the committed table what the abstract cancellation does, and answers the same.
use gotth_jobs.Common.{
  ◌≡◌, refl, true, false, Option, none, some, All, All-of, All-at, In, ◌||◌, arith,
}
use gotth_jobs.Bytes.{Bytes, bytes_eq→eq, bytes_eq_self}
use gotth_jobs.Types.{Job, zero_job, State, pending, running, succeeded, dead, canceled, other}
use gotth_jobs.Errors.{Err, ok, failed, ◌>>=◌, sentinel, no_rows, not_found, state_conflict, is}
use gotth_jobs.Rows.{scan_job}
use gotth_jobs.Values.Identifiers.{validate_job_id}
use gotth_jobs.Table.{Row, Table, IsConsistent}
use gotth_jobs.Table.Update.{update}
use gotth_jobs.Table.Lookup.{find_row, find_row-some, put}
use gotth_jobs.Table.Decoded.{job_of, IsReadable}
use gotth_jobs.Table.Statements.{Session, cancelable, cancel_row, cancel_sql, in_state}
use gotth_jobs.Table.Statements.Checks.{cancel_row-checked}
use gotth_jobs.Postgres.{Context, Database, cancel_statement, transact}
use gotth_jobs.Engine.{execute_job}
use gotth_jobs.Engine.Serving.{Serves}
use gotth_jobs.Engine.Serving.Updates.{
  update-changed, update-unmet, unmet-missing, unmet-other, get-found, get-missing, Selects,
}
use gotth_jobs.Lifecycle.Refinement.Transaction.{
  Performs, transact_stores, transact_forgets, Leaves,
}
use gotth_jobs.Operations.{cancel_read, cancel_job, cancel}
use gotth_jobs.Operations.Refinement.{canceled_from, canceled_one, cancellation}
use gotth_jobs.Operations.Refinement.Steps.{canceled_row-ok, canceled_row-read}

cancelable-Selects : (id : Bytes) → Selects (cancelable id) id
unfolding cancelable
cancelable-Selects id y h = ground (arith, bytes_eq→eq y.id id)

module _ {S : Type 0} (database : Database S) (session : Session) (refused : Err)
    (serves : Serves database session refused) (id : Bytes) (s : S) (t : Table)
    (o : serves.copy s ≡ some t) (c : IsConsistent t) where
  runs_cancel :
      execute_job session (cancel_statement id) t ≡ update (cancelable id) (cancel_row session) t
  unfolding execute_job cancel_sql
  runs_cancel = refl

  cancel_job-changed :
      (r : Row)
      → In r t
      → r.id ≡ id
      → cancelable id r ≡ true
      → IsReadable (cancel_row session r)
      → Leaves database session refused serves
          (cancel_job database id s)
          (serves.committed s)
          (job_of (cancel_row session r), none)
          (put (cancel_row session r) t)
  unfolding cancel_job
  cancel_job-changed r m i h readable =
      let u =
        update-changed database session refused serves s t o (cancel_statement id) (cancelable id)
          (cancel_row session) runs_cancel id r c m i h (cancelable-Selects id)
          (All-of _ t (λ y _. cancel_row-checked session id y)) (λ y. unfold cancel_row in refl)
          readable in
      canceled_row-ok database session refused serves id
        ((database.query_job (cancel_statement id) s).0 >>= scan_job)
        (job_of (cancel_row session r)) (database.query_job (cancel_statement id) s).1
        (serves.committed s) _ u.read u.below u.copy

  cancel_job-kept :
      (r : Row) (result : Job × Option Err)
      → In r t
      → r.id ≡ id
      → cancelable id r ≡ false
      → IsReadable r
      → cancel_read database (ok (job_of r)) ≡ result
      → Leaves database session refused serves
          (cancel_job database id s)
          (serves.committed s)
          result
          t
  unfolding cancel_job
  cancel_job-kept r result m i h readable k =
      let u =
        update-unmet database session refused serves s t o (cancel_statement id) (cancelable id)
          (cancel_row session) runs_cancel
          (unmet-other (cancelable id) id t r (cancelable-Selects id) c.unique m i h) in
      canceled_row-read database session refused serves id
        ((database.query_job (cancel_statement id) s).0 >>= scan_job) (ok (job_of r))
        (database.query_job (cancel_statement id) s).1 (serves.committed s) t result u.read u.below
        u.copy
        (get-found database session refused serves (database.query_job (cancel_statement id) s).1 t
          u.copy id r c m i readable)
        k

  cancel_job-missing :
      find_row id t ≡ none
      → Leaves database session refused serves
          (cancel_job database id s)
          (serves.committed s)
          (zero_job, some (sentinel not_found))
          t
  unfolding cancel_job
  cancel_job-missing e =
      let u =
        update-unmet database session refused serves s t o (cancel_statement id) (cancelable id)
          (cancel_row session) runs_cancel
          (unmet-missing (cancelable id) id t (cancelable-Selects id) e) in
      canceled_row-read database session refused serves id
        ((database.query_job (cancel_statement id) s).0 >>= scan_job) (failed (sentinel no_rows))
        (database.query_job (cancel_statement id) s).1 (serves.committed s) t
        (zero_job, some (sentinel not_found)) u.read u.below u.copy
        (get-missing database session refused serves (database.query_job (cancel_statement id) s).1
          t u.copy id e)
        (unfold cancel_read is in refl)

module _ {S : Type 0} (database : Database S) (session : Session) (refused : Err)
    (serves : Serves database session refused) (ctx : Context) (id : Bytes) (s : S)
    (c : IsConsistent (serves.committed s)) (readable : All IsReadable (serves.committed s))
    (changed : All (λ r. IsReadable (cancel_row session r)) (serves.committed s)) where
  cancel_replaces :
      (r : Row)
      → find_row id (serves.committed s) ≡ some r
      → cancelable id r ≡ true
      → Performs serves.committed
          (transact database zero_job (some ctx) (cancel_job database id) s)
          ((job_of (cancel_row session r), none), put (cancel_row session r) (serves.committed s))
  cancel_replaces r e h =
      let (_, below, copy) = serves.begins s in
      let (m, i) = find_row-some id (serves.committed s) r e in
      transact_stores database session refused serves zero_job (job_of (cancel_row session r)) ctx
        (cancel_job database id) s _
        (rw below at (
          cancel_job-changed database session refused serves id (database.begin_tx s).1
            (serves.committed s) copy c r m i h
            (All-at (λ y. IsReadable (cancel_row session y)) (serves.committed s) r changed m)))

  cancel_keeps :
      (r : Row) (result : Job × Option Err)
      → find_row id (serves.committed s) ≡ some r
      → cancelable id r ≡ false
      → cancel_read database (ok (job_of r)) ≡ result
      → Performs serves.committed
          (transact database zero_job (some ctx) (cancel_job database id) s)
          (result, serves.committed s)
  cancel_keeps r (job, none) e h k =
      let (_, below, copy) = serves.begins s in
      let (m, i) = find_row-some id (serves.committed s) r e in
      transact_stores database session refused serves zero_job job ctx (cancel_job database id) s
        (serves.committed s)
        (rw below at (
          cancel_job-kept database session refused serves id (database.begin_tx s).1
            (serves.committed s) copy c r (job, none) m i h
            (All-at IsReadable (serves.committed s) r readable m) k))
  cancel_keeps r (job, some err) e h k =
      let (_, below, copy) = serves.begins s in
      let (m, i) = find_row-some id (serves.committed s) r e in
      transact_forgets database session refused serves zero_job job err ctx (cancel_job database id)
        s (serves.committed s)
        (rw below at (
          cancel_job-kept database session refused serves id (database.begin_tx s).1
            (serves.committed s) copy c r (job, some err) m i h
            (All-at IsReadable (serves.committed s) r readable m) k))

  cancelable_in :
      (r : Row) (st : State)
      → find_row id (serves.committed s) ≡ some r
      → r.state ≡ st
      → cancelable id r ≡ (in_state st pending || in_state st running)
  unfolding cancelable
  cancelable_in r st e q =
      let (_, i) = find_row-some id (serves.committed s) r e in rw (i, q, bytes_eq_self id) refl

  kept_read :
      (r : Row) (st : State)
      → r.state ≡ st
      → in_state st canceled ≡ false
      → cancel_read database (ok (job_of r)) ≡ (zero_job, some (sentinel state_conflict))
  unfolding cancel_read job_of
  kept_read r st q h = ground (arith, q)

  cancel_found :
      (r : Row) (st : State)
      → find_row id (serves.committed s) ≡ some r
      → r.state ≡ st
      → Performs serves.committed
          (transact database zero_job (some ctx) (cancel_job database id) s)
          (canceled_from session (serves.committed s) r st)
  unfolding canceled_from
  cancel_found r pending e q = cancel_replaces r e (cancelable_in r pending e q)
  cancel_found r running e q = cancel_replaces r e (cancelable_in r running e q)
  cancel_found r succeeded e q =
      cancel_keeps r _ e (cancelable_in r succeeded e q) (kept_read r succeeded q refl)
  cancel_found r dead e q = cancel_keeps r _ e (cancelable_in r dead e q) (kept_read r dead q refl)
  cancel_found r canceled e q =
      cancel_keeps r (job_of r, none) e (cancelable_in r canceled e q)
        (unfold cancel_read job_of in rw q refl)
  cancel_found r (other text) e q =
      cancel_keeps r _ e (cancelable_in r (other text) e q) (kept_read r (other text) q refl)

  cancel_one :
      (x : Option Row)
      → find_row id (serves.committed s) ≡ x
      → Performs serves.committed
          (transact database zero_job (some ctx) (cancel_job database id) s)
          (canceled_one session (serves.committed s) x)
  unfolding canceled_one
  cancel_one none e =
      let (_, below, copy) = serves.begins s in
      transact_forgets database session refused serves zero_job zero_job (sentinel not_found) ctx
        (cancel_job database id) s (serves.committed s)
        (rw below at (
          cancel_job-missing database session refused serves id (database.begin_tx s).1
            (serves.committed s) copy c e))
  cancel_one (some r) e = cancel_found r r.state e refl

  -- On a database that serves it undisturbed, with a consistent and readable table, Cancel of a
  -- well-formed identifier answers and commits what the abstract cancellation does: a job that waits
  -- or runs becomes canceled, a canceled one is answered again, and otherwise nothing changes and the
  -- error is ErrNotFound or ErrStateConflict.
  pub cancel-Performs :
      validate_job_id id ≡ none
      → Performs serves.committed
          (cancel (some (record { database = some database })) (some ctx) id s)
          (cancellation session id (serves.committed s))
  unfolding cancel cancellation
  cancel-Performs valid = rw valid (cancel_one (find_row id (serves.committed s)) refl)
