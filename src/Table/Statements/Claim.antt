-- ===== src/Table/Statements/Claim.antt =====
-- claimSQL of pkg/jobs/lifecycle.go: its two locking CTEs and the updates that follow them.
use gotth_jobs.Table.Statements.{
  Session, in_state, at_most, plus_micros, id_among, at_where, at_lease, at_finished, at_updated,
}
use gotth_jobs.Common.{
  ℕ, ◌+◌, ℤ, Bool, not, ◌&&◌, ◌||◌, Option, none, some, List, ltb, leb, ◌==◌, if◌then◌else◌, select,
  take, order_by,
}
use gotth_jobs.Bytes.{Bytes, bytes_eq, codes}
use gotth_jobs.Types.{pending, running, dead}
use gotth_jobs.Table.{Row, Table}
use gotth_jobs.Table.Update.{Answer, rows, constraint_violation, update}

-- The CTE expired_exhausted, before the locks.
unfoldable pub expired_exhausted : Session → Bytes → Row → Bool
expired_exhausted session queue r =
    bytes_eq r.queue queue
    && (in_state r.state running
        && (at_most r.lease_until (session.clock at_where r.id) && leb r.max_attempts r.attempts))

-- The CTE candidate, before the locks.
unfoldable pub claimable : Session → Bytes → Row → Bool
claimable session queue r =
    bytes_eq r.queue queue
    && ((in_state r.state pending && leb r.available_at (session.clock at_where r.id))
        || (in_state r.state running
            && (at_most r.lease_until (session.clock at_where r.id)
                && ltb r.attempts r.max_attempts)))

abbrev pub or_zero : Option ℕ → ℕ
or_zero none = 0
or_zero (some n) = n

-- CASE WHEN state = 'pending' THEN available_at ELSE lease_until END
unfoldable pub due_at : Row → ℕ
due_at r = if in_state r.state pending then r.available_at else or_zero r.lease_until

-- ORDER BY key, created_at, id
unfoldable pub ordered : Session → (Row → ℕ) → Row → Row → Bool
ordered session key r s =
    ltb (key r) (key s)
    || (key r == key s
        && (ltb r.created_at s.created_at
            || (r.created_at == s.created_at && session.id_le r.id s.id)))

unfoldable pub unlocked : Session → Row → Bool
unlocked session r = not (session.locked r.id)

-- FOR UPDATE SKIP LOCKED after WHERE and ORDER BY.
unfoldable pub lockable : Session → (Row → ℕ) → (Row → Bool) → Table → List Row
unfolding ordered order_by select unlocked
lockable session key p t = select (unlocked session) (order_by (ordered session key) (select p t))

unfoldable pub exhausted_row : Session → Row → Row
exhausted_row session r = record r {
  state = dead;
  lease_token = none;
  lease_owner = none;
  lease_until = none;
  finished_at = some (session.clock at_finished r.id);
  updated_at = session.clock at_updated r.id;
  last_error = codes "lease expired after final attempt";
}

unfoldable pub claim_row : Session → Bytes → Bytes → ℤ → Row → Row
claim_row session token worker micros r = record r {
  state = running;
  attempts = r.attempts + 1;
  lease_token = some token;
  lease_owner = some worker;
  lease_until = some (plus_micros (session.clock at_lease r.id) micros);
  updated_at = session.clock at_updated r.id;
  finished_at = none;
  last_error =
      if in_state r.state running
      then codes "lease expired before acknowledgement"
      else r.last_error;
}

-- A later part of a statement, after one that has changed the table from `t`: an error undoes both.
unfoldable pub undo : Table → Answer → Table → Answer × Table
undo t constraint_violation after = (constraint_violation, t)
undo t (rows r) after = (rows r, after)

unfoldable pub then_update : Table → (Row → Bool) → (Row → Row) → Answer × Table → Answer × Table
unfolding update undo
then_update t p f (constraint_violation, changed) = (constraint_violation, t)
then_update t p f (rows r, changed) =
    let (answer, after) = update p f changed in undo t answer after

-- The rows that the two CTEs lock: at most 100 exhausted ones, and one candidate.
unfoldable pub expired_rows : Session → Bytes → Table → List Row
unfolding expired_exhausted lockable
expired_rows session queue t =
    take 100 (lockable session (λ r. or_zero r.lease_until) (expired_exhausted session queue) t)

unfoldable pub candidate_rows : Session → Bytes → Table → List Row
unfolding claimable lockable due_at
candidate_rows session queue t = take 1 (lockable session due_at (claimable session queue) t)

-- The CTEs read the table as the statement found it, and their updates touch different rows.
unfoldable pub claim_sql : Session → Bytes → Bytes → Bytes → ℤ → Table → Answer × Table
unfolding expired_rows candidate_rows exhausted_row claim_row id_among update then_update
claim_sql session queue token worker micros t =
    then_update t (id_among (candidate_rows session queue t))
      (claim_row session token worker micros)
      (update (id_among (expired_rows session queue t)) (exhausted_row session) t)
