-- ===== src/Examples/Server.antt =====
-- A database for the examples: the table as it was committed, and a transaction's copy of it.
use gotth_jobs.Common.{
  ℕ, ◌+◌, Bool, Option, none, some, List, [], ◌∷◌, if◌then◌else◌, select, map, ◌&&◌,
}
use gotth_jobs.Bytes.{Bytes, bytes_eq, codes}
use gotth_jobs.Errors.{Err, Result, ok, failed, sentinel, no_rows, tx_closed, plain_error}
use gotth_jobs.Rows.{RawRow, state_text}
use gotth_jobs.Table.{Row, Table, columns, of_time, map_option}
use gotth_jobs.Table.Update.{Answer, rows, constraint_violation}
use gotth_jobs.Table.Statements.{Session, text_is}
use gotth_jobs.Table.Statements.Reads.{counts_sql, list_dead_sql}
use gotth_jobs.Postgres.{Database}
use gotth_jobs.Engine.{Statement, job_statement, heartbeat_statement, execute}

pub record Server : Type 0 where
  pub stored : Table
  pub working : Option Table
  pub ticks : ℕ

-- The table that a statement sees.
unfoldable pub visible : Table → Option Table → Table
visible stored none = stored
visible stored (some t) = t

-- A change outside a transaction is stored at once.
unfoldable pub change : Server → Option Table → Table → Server
change s none t = record s { stored = t; ticks = s.ticks + 1 }
change s (some _) t = record s { working = some t; ticks = s.ticks + 1 }

first_row : List Row → Result Row
first_row [] = failed (sentinel no_rows)
first_row (r ∷ _) = ok r

unfoldable pub answered : Answer → Result RawRow
unfolding first_row
answered constraint_violation = failed (plain_error "constraint violation")
answered (rows []) = failed (sentinel no_rows)
answered (rows (r ∷ _)) = ok (columns r)

unfoldable pub beaten : Answer → Option Err
beaten constraint_violation = some (plain_error "constraint violation")
beaten (rows []) = some (sentinel no_rows)
beaten (rows (r ∷ _)) = none

-- What a rollback returns without a transaction.
no_transaction : Option Table → Option Err
no_transaction none = some (sentinel tx_closed)
no_transaction (some _) = none

unfoldable pub has_key : Bytes → Bytes → Row → Bool
has_key queue key r = bytes_eq r.queue queue && text_is r.idempotency_key key

unfoldable pub keyed : List Row → Result (Option Bytes × RawRow)
keyed [] = failed (sentinel no_rows)
keyed (r ∷ _) = ok (some r.request_fingerprint, columns r)

unfoldable pub state_read : List Row → Result (Option Bytes)
state_read [] = failed (sentinel no_rows)
state_read (r ∷ _) = ok (some (state_text r.state))

-- The outcome of a commit: an error may come although the changes have been stored.
settle : Server → Bool → Option Table → Server
settle s lands none = s
settle s lands (some t) = record s { stored = if lands then t else s.stored; working = none }

module _ (sessions : ℕ → Session) (lands : ℕ → Bool) (commit_error : ℕ → Option Err) where
  statement : Statement → Server → Answer × Server
  unfolding execute visible change
  statement q s =
      let (answer, t) = execute (sessions s.ticks) q (visible s.stored s.working) in
      (answer, change s s.working t)

  unfoldable pub server : Database Server
  unfolding statement settle answered beaten keyed state_read has_key visible no_transaction
  server = record {
    begin_tx = λ s. (none, record s { working = some s.stored });
    commit = λ s. (commit_error s.ticks, settle s (lands s.ticks) s.working);
    rollback = λ s. (no_transaction s.working, record s { working = none });
    query_job = λ q s. (let (answer, s') = statement (job_statement q) s in (answered answer, s'));
    query_idempotent_job =
        λ queue key s. (keyed (select (has_key queue key) (visible s.stored s.working)), s);
    query_heartbeat = λ id token micros s.
        (let (answer, s') = statement (heartbeat_statement id token micros) s in
          (beaten answer, s'));
    query_lease_state =
        λ id s. (state_read (select (λ r. bytes_eq r.id id) (visible s.stored s.working)), s);
    query_isolation = λ s. (ok (codes "read committed"), s);
    query_counts = λ queue s. (ok (counts_sql queue (visible s.stored s.working)), s);
    query_dead = λ queue time id limit s. (
      ok (record {
        fetched = map columns (
            list_dead_sql (sessions s.ticks) queue (map_option of_time time) id limit
              (visible s.stored s.working));
        err = none;
      }),
      s,
    );
  }
