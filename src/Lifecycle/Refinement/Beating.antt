-- ===== src/Lifecycle/Refinement/Beating.antt =====
-- Heartbeat as a change of one row: the lease that is held is extended.
use gotth_jobs.Common.{
  ℤ, ◌≡◌, refl, sym, ap, ◌∙◌, true, false, Option, none, some, [], ◌∷◌, In, All, All-of, length,
  select, every-in, if◌then◌else◌, Bool-cases, inl, inr,
}
use gotth_jobs.Bytes.{bytes_eq, codes}
use gotth_jobs.Types.{Lease}
use gotth_jobs.Errors.{Err, ◌>>=◌, sentinel, no_rows, not_found, is}
use gotth_jobs.Rows.{scan_bounded}
use gotth_jobs.Values.{validate_lease_duration}
use gotth_jobs.Table.{Row, Table, IsConsistent, satisfies_checks}
use gotth_jobs.Table.Lookup.{find_row, find_row-some, put, update-single}
use gotth_jobs.Table.Update.{Answer, rows}
use gotth_jobs.Table.Statements.{Session, holds_lease, heartbeat_row, heartbeat_sql}
use gotth_jobs.Table.Statements.Checks.{heartbeat_row-checked}
use gotth_jobs.Table.Statements.Fencing.{holds_lease-id, update-none}
use gotth_jobs.Postgres.{Context, Database, transact}
use gotth_jobs.Engine.Serving.{Serves, beat_error, state_column}
use gotth_jobs.Engine.Serving.Updates.{unmet-missing, unmet-other, rows-missing, rows-found}
use gotth_jobs.Lifecycle.{
  classified, classify_lease, extended, extend_lease, heartbeat, validate_lease, microseconds,
}
use gotth_jobs.Lifecycle.Refinement.{lost}
use gotth_jobs.Lifecycle.Refinement.Change.{classified-row, classified-missing}
use gotth_jobs.Lifecycle.Refinement.Transaction.{
  Performs, Leaves, transact_stores, transact_forgets,
}

-- The row that holds the lease is extended; otherwise the error says why.
unfoldable pub extension_row :
    Session → Lease → ℤ → Table → Option Row → (Unit {0} × Option Err) × Table
unfolding lost
extension_row session lease micros t none = ((tt, some (sentinel not_found)), t)
extension_row session lease micros t (some r) =
    if holds_lease session lease.job_id lease.token r
    then ((tt, none), put (heartbeat_row session micros r) t)
    else ((tt, some (sentinel (lost r))), t)

unfoldable pub extension : Session → Lease → ℤ → Table → (Unit {0} × Option Err) × Table
unfolding extension_row
extension session lease micros t = extension_row session lease micros t (find_row lease.job_id t)

module _ {S : Type 0} (database : Database S) (session : Session) (refused : Err)
    (serves : Serves database session refused) (lease : Lease) (duration : ℤ) (s : S) (t : Table)
    (open_copy : serves.copy s ≡ some t) (c : IsConsistent t) where
  abbrev micros : ℤ
  micros = microseconds duration

  extended-none :
      (x : Option Err) (s' : S) (base u : Table)
      → x ≡ none
      → serves.committed s' ≡ base
      → serves.copy s' ≡ some u
      → Leaves database session refused serves
          (extended database lease.job_id (x, s'))
          base
          (tt, none)
          u
  unfolding extended
  extended-none none s' base u e b k = record { answer = refl; below = b; copy = k }
  extended-none (some err) s' base u e b k = cc

  extended_rejects :
      (x : Option Err) (err : Err) (s' : S) (base u : Table)
      → x ≡ some (sentinel no_rows)
      → serves.committed s' ≡ base
      → serves.copy s' ≡ some u
      → classified (
          state_column (select (λ r. bytes_eq r.id lease.job_id) u)
          >>= scan_bounded 1 (length (codes "succeeded")))
        ≡ err
      → Leaves database session refused serves
          (extended database lease.job_id (x, s'))
          base
          (tt, some err)
          u
  unfolding extended classify_lease is
  extended_rejects x err s' base u e b k q =
      let (column, below, copy) = serves.reads lease.job_id s' u k in
      rw e record { answer = rw (column, q) refl; below = below ∙ b; copy = copy }

  extend_lease-held :
      (r : Row)
      → In r t
      → r.id ≡ lease.job_id
      → holds_lease session lease.job_id lease.token r ≡ true
      → Leaves database session refused serves
          (extend_lease database lease duration s)
          (serves.committed s)
          (tt, none)
          (put (heartbeat_row session micros r) t)
  unfolding extend_lease
  extend_lease-held r m i h =
      let done : heartbeat_sql session lease.job_id lease.token micros t
          ≡ (rows (heartbeat_row session micros r ∷ []), put (heartbeat_row session micros r) t) =
        unfold heartbeat_sql in
        update-single (holds_lease session lease.job_id lease.token) (heartbeat_row session micros)
          t r c m h (λ y q. holds_lease-id session lease.job_id lease.token y q ∙ sym i)
          (All-of _ t (λ y _. heartbeat_row-checked session lease.job_id lease.token micros y))
          (λ y. unfold heartbeat_row in refl) in
      let (beat, below, copy) = serves.beats lease.job_id lease.token micros s t open_copy in
      extended-none (database.query_heartbeat lease.job_id lease.token micros s).0
        (database.query_heartbeat lease.job_id lease.token micros s).1 (serves.committed s)
        (put (heartbeat_row session micros r) t) (rw (beat, done) (unfold beat_error in refl)) below
        (copy ∙ ap (λ (y : Answer × Table). some y.1) done)

  extend_lease-rejected :
      (err : Err)
      → All (λ r. holds_lease session lease.job_id lease.token r ≡ false) t
      → classified (
          state_column (select (λ r. bytes_eq r.id lease.job_id) t)
          >>= scan_bounded 1 (length (codes "succeeded")))
        ≡ err
      → Leaves database session refused serves
          (extend_lease database lease duration s)
          (serves.committed s)
          (tt, some err)
          t
  unfolding extend_lease
  extend_lease-rejected err free k =
      let done : heartbeat_sql session lease.job_id lease.token micros t ≡ (rows [], t) =
        unfold heartbeat_sql in
        update-none (holds_lease session lease.job_id lease.token) (heartbeat_row session micros) t
          free in
      let (beat, below, copy) = serves.beats lease.job_id lease.token micros s t open_copy in
      extended_rejects (database.query_heartbeat lease.job_id lease.token micros s).0 err
        (database.query_heartbeat lease.job_id lease.token micros s).1 (serves.committed s) t
        (rw (beat, done) (unfold beat_error in refl)) below
        (copy ∙ ap (λ (y : Answer × Table). some y.1) done) k

module _ {S : Type 0} (database : Database S) (session : Session) (refused : Err)
    (serves : Serves database session refused) (ctx : Context) (lease : Lease) (duration : ℤ)
    (s : S) (c : IsConsistent (serves.committed s)) where
  beat_found :
      (o : Option Row)
      → find_row lease.job_id (serves.committed s) ≡ o
      → Performs serves.committed
          (transact database tt (some ctx) (extend_lease database lease duration) s)
          (extension_row session lease (microseconds duration) (serves.committed s) o)
  unfolding extension_row
  beat_found none e =
      let t = serves.committed s in
      let (_, below, copy) = serves.begins s in
      let rejected =
        extend_lease-rejected database session refused serves lease duration (database.begin_tx s).1
          t copy c (sentinel not_found)
          (unmet-missing (holds_lease session lease.job_id lease.token) lease.job_id t
            (holds_lease-id session lease.job_id lease.token) e)
          (rw (rows-missing lease.job_id t e) classified-missing) in
      transact_forgets database session refused serves tt tt (sentinel not_found) ctx
        (extend_lease database lease duration) s t (rw below at rejected)
  beat_found (some r) e =
      let t = serves.committed s in
      let (_, below, copy) = serves.begins s in
      let (m, i) = find_row-some lease.job_id t r e in
      elim (Bool-cases (holds_lease session lease.job_id lease.token r)) [
        | inl h ↦
            let held =
              extend_lease-held database session refused serves lease duration
                (database.begin_tx s).1 t copy c r m i h in
            rw h (
              transact_stores database session refused serves tt tt ctx
                (extend_lease database lease duration) s
                (put (heartbeat_row session (microseconds duration) r) t) (rw below at held))
        | inr h ↦
            let rejected =
              extend_lease-rejected database session refused serves lease duration
                (database.begin_tx s).1 t copy c (sentinel (lost r))
                (unmet-other (holds_lease session lease.job_id lease.token) lease.job_id t r
                  (holds_lease-id session lease.job_id lease.token) c.unique m i h)
                (rw (rows-found lease.job_id t r c.unique m i)
                  (classified-row r (every-in satisfies_checks t r c.checked m))) in
            rw h (
              transact_forgets database session refused serves tt tt (sentinel (lost r)) ctx
                (extend_lease database lease duration) s t (rw below at rejected))
      ]

  -- On a database that serves it undisturbed, with a consistent table, Heartbeat with a well-formed lease
  -- and a valid duration extends the lease of the row that holds it and commits the row; otherwise
  -- nothing changes and the error is ErrNotFound, ErrCanceled or ErrLeaseLost.
  pub heartbeat-Performs :
      validate_lease lease ≡ none
      → validate_lease_duration duration ≡ none
      → Performs serves.committed
          (heartbeat (some (record { database = some database })) (some ctx) lease duration s)
          (extension session lease (microseconds duration) (serves.committed s))
  unfolding heartbeat extension
  heartbeat-Performs valid lasting =
      rw (valid, lasting) (beat_found (find_row lease.job_id (serves.committed s)) refl)
