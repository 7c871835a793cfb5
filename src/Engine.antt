-- ===== src/Engine.antt =====
-- The statements that pkg/jobs sends, run on the table one after the other.
pub mod Consistency
pub mod Unchecked
pub mod Serving
pub mod Legal
pub mod Edges
pub mod Finds
pub mod Exclusive
pub mod Deliveries
pub mod Evolution
use gotth_jobs.Common.{
  ℕ, ℤ, pos, negsuc, Bool, true, ◌≡◌, ◌≤◌, Option, none, some, List, [], ◌∷◌, length, select,
}
use gotth_jobs.Bytes.{Bytes, bytes_eq}
use gotth_jobs.Table.{Row, Table, between, of_time, map_option}
use gotth_jobs.Table.Update.{Answer, rows, constraint_violation}
use gotth_jobs.Table.Statements.{
  Session, heartbeat_sql, complete_sql, fail_sql, cancel_sql, redrive_sql, new_row, insert_row,
}
use gotth_jobs.Table.Statements.Claim.{claim_sql}
use gotth_jobs.Values.Identifiers.{valid_lease_token}
use gotth_jobs.Postgres.{
  JobStatement, enqueue_statement, claim_statement, complete_statement, fail_statement,
  cancel_statement, redrive_statement, get_statement,
}

pub data Statement : Type 0 where
  job_statement : JobStatement → Statement
  heartbeat_statement : Bytes → Bytes → ℤ → Statement

-- The arguments of an INSERT: a NULL payload and a negative budget violate constraints.
unfoldable pub insert_sql :
    Session
    → Bytes
    → Bytes
    → Bytes
    → Option Bytes
    → Bytes
    → Bytes
    → ℤ
    → Option ℕ
    → Table
    → Answer × Table
unfolding insert_row
insert_sql session id queue kind none key fingerprint maximum available t =
    (constraint_violation, t)
insert_sql session id queue kind (some payload) key fingerprint (negsuc n) available t =
    (constraint_violation, t)
insert_sql session id queue kind (some payload) key fingerprint (pos n) available t =
    insert_row (new_row session id queue kind payload key fingerprint n available) t

-- enqueueSQL, claimSQL, completeSQL, failSQL, cancelSQL, redriveSQL and getSQL
unfoldable pub execute_job : Session → JobStatement → Table → Answer × Table
unfolding insert_sql claim_sql complete_sql fail_sql cancel_sql redrive_sql
execute_job session (enqueue_statement id queue kind payload key fingerprint maximum available) t =
    insert_sql session id queue kind payload key fingerprint maximum (map_option of_time available)
      t
execute_job session (claim_statement queue token worker micros) t =
    claim_sql session queue token worker micros t
execute_job session (complete_statement id token) t = complete_sql session id token t
execute_job session (fail_statement id token message permanent micros) t =
    fail_sql session id token message permanent micros t
execute_job session (cancel_statement id) t = cancel_sql session id t
execute_job session (redrive_statement id) t = redrive_sql session id t
execute_job session (get_statement id) t = (rows (select (λ r. bytes_eq r.id id) t), t)

unfoldable pub execute : Session → Statement → Table → Answer × Table
unfolding execute_job heartbeat_sql
execute session (job_statement statement) t = execute_job session statement t
execute session (heartbeat_statement id token micros) t = heartbeat_sql session id token micros t

-- A history of statements, each with the clock and the locks that it meets.
unfoldable pub run : Table → List (Session × Statement) → Table
unfolding execute
run t [] = t
run t ((session, statement) ∷ rest) = run (execute session statement t).1 rest

-- What the callers of a statement have validated before they send it.
abbrev pub IsLegal : Statement → Type 0
IsLegal (job_statement (claim_statement queue token worker micros)) =
    (valid_lease_token token ≡ true) × (between 1 256 (length worker) ≡ true)
IsLegal (job_statement (fail_statement id token message permanent micros)) = length message ≤ 4096
IsLegal _ = Unit
