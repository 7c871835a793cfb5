-- ===== src/Engine/Serving.antt =====
-- A database in which a transaction works on its own copy of the table.
pub mod Updates
pub mod Reads
use gotth_jobs.Common.{ℤ, Bool, ◌&&◌, ◌≡◌, Option, none, some, List, [], ◌∷◌, select}
use gotth_jobs.Bytes.{Bytes, bytes_eq}
use gotth_jobs.Errors.{Err, Result, ok, failed, sentinel, no_rows}
use gotth_jobs.Rows.{RawRow, state_text}
use gotth_jobs.Table.{Row, Table, columns}
use gotth_jobs.Table.Update.{Answer, rows, constraint_violation}
use gotth_jobs.Table.Statements.{Session, text_is, heartbeat_sql}
use gotth_jobs.Postgres.{Database, JobStatement}
use gotth_jobs.Engine.{execute_job}

-- What QueryRow and Scan give for the rows of a statement; `refused` is the error of a constraint.
unfoldable pub first_row : Err → Answer → Result RawRow
first_row refused constraint_violation = failed refused
first_row refused (rows []) = failed (sentinel no_rows)
first_row refused (rows (r ∷ _)) = ok (columns r)

-- SELECT state FROM jobs.jobs WHERE id = $1
unfoldable pub state_column : List Row → Result (Option Bytes)
state_column [] = failed (sentinel no_rows)
state_column (r ∷ _) = ok (some (state_text r.state))

-- WHERE queue = $1 AND idempotency_key = $2
unfoldable pub keyed_by : Bytes → Bytes → Row → Bool
keyed_by queue key r = bytes_eq r.queue queue && text_is r.idempotency_key key

-- SELECT request_fingerprint, … FROM public.gotth_jobs
unfoldable pub keyed_row : List Row → Result (Option Bytes × RawRow)
keyed_row [] = failed (sentinel no_rows)
keyed_row (r ∷ _) = ok (some r.request_fingerprint, columns r)

-- What Scan gives for the heartbeat, which reads nothing from its row.
unfoldable pub beat_error : Err → Answer → Option Err
beat_error refused constraint_violation = some refused
beat_error refused (rows []) = some (sentinel no_rows)
beat_error refused (rows (r ∷ _)) = none

-- What PostgreSQL and pgx promise a transaction that nobody disturbs: the statements act on a copy of
-- the committed table, a commit makes the copy the committed table, and a rollback forgets it.
pub record Serves {S : Type 0} (database : Database S) (session : Session) (refused : Err)
    : Type 0 where
  pub committed : S → Table
  pub copy : S → Option Table
  pub begins :
      (s : S)
      → ((database.begin_tx s).0 ≡ none)
        × (committed (database.begin_tx s).1 ≡ committed s)
        × (copy (database.begin_tx s).1 ≡ some (committed s))
  pub answers :
      (statement : JobStatement) (s : S) (t : Table)
      → copy s ≡ some t
      → ((database.query_job statement s).0 ≡ first_row refused (execute_job session statement t).0)
        × (committed (database.query_job statement s).1 ≡ committed s)
        × (copy (database.query_job statement s).1 ≡ some (execute_job session statement t).1)
  pub reads :
      (id : Bytes) (s : S) (t : Table)
      → copy s ≡ some t
      → ((database.query_lease_state id s).0 ≡ state_column (select (λ r. bytes_eq r.id id) t))
        × (committed (database.query_lease_state id s).1 ≡ committed s)
        × (copy (database.query_lease_state id s).1 ≡ some t)
  pub beats :
      (id token : Bytes) (micros : ℤ) (s : S) (t : Table)
      → copy s ≡ some t
      → ((database.query_heartbeat id token micros s).0
          ≡ beat_error refused (heartbeat_sql session id token micros t).0)
        × (committed (database.query_heartbeat id token micros s).1 ≡ committed s)
        × (copy (database.query_heartbeat id token micros s).1
            ≡ some (heartbeat_sql session id token micros t).1)
  pub finds :
      (queue key : Bytes) (s : S) (t : Table)
      → copy s ≡ some t
      → ((database.query_idempotent_job queue key s).0 ≡ keyed_row (select (keyed_by queue key) t))
        × (committed (database.query_idempotent_job queue key s).1 ≡ committed s)
        × (copy (database.query_idempotent_job queue key s).1 ≡ some t)
  pub commits :
      (s : S) (t : Table)
      → copy s ≡ some t
      → ((database.commit s).0 ≡ none)
        × (committed (database.commit s).1 ≡ t)
        × (copy (database.commit s).1 ≡ none)
  pub rolls_back :
      (s : S) (t : Table)
      → copy s ≡ some t
      → ((database.rollback s).0 ≡ none) × (committed (database.rollback s).1 ≡ committed s)
  -- A rollback after the commit changes nothing.
  pub stays : (s : S) → copy s ≡ none → committed (database.rollback s).1 ≡ committed s
