-- ===== src/Table/Statements/Reads.antt =====
-- countsSQL and listDeadSQL of operations.go and leaseStateSQL of lifecycle.go on the table.
use gotth_jobs.Common.{
  ℕ, ℤ, pos, negsuc, Bool, true, not, ◌&&◌, ◌||◌, Option, none, some, List, length, select, take,
  ltb, ◌==◌, order_by,
}
use gotth_jobs.Bytes.{Bytes, bytes_eq}
use gotth_jobs.Types.{State, pending, running, succeeded, dead, canceled}
use gotth_jobs.Table.{Row, Table}
use gotth_jobs.Table.Statements.{Session, in_state}
use gotth_jobs.Table.Statements.Claim.{or_zero}
use gotth_jobs.Postgres.{CountsRow}

-- count(*) FILTER (WHERE state = …)
unfoldable pub count_state : State → Table → ℕ
unfolding select
count_state state t = length (select (λ r. in_state r.state state) t)

unfoldable pub counts_sql : Bytes → Table → CountsRow
unfolding count_state
counts_sql queue t =
    let here = select (λ r. bytes_eq r.queue queue) t in
    record {
      pending = pos (count_state pending here);
      running = pos (count_state running here);
      succeeded = pos (count_state succeeded here);
      dead = pos (count_state dead here);
      canceled = pos (count_state canceled here);
      total = pos (length here);
    }

-- $2 IS NULL OR (finished_at, id) > ($2, $3)
unfoldable pub past_cursor : Session → Option ℕ → Bytes → Row → Bool
past_cursor session none id r = true
past_cursor session (some time) id r =
    ltb time (or_zero r.finished_at)
    || (or_zero r.finished_at == time && not (session.id_le r.id id))

unfoldable pub dead_in : Bytes → Row → Bool
dead_in queue r = bytes_eq r.queue queue && in_state r.state dead

-- ORDER BY finished_at, id
unfoldable pub dead_le : Session → Row → Row → Bool
dead_le session r s =
    ltb (or_zero r.finished_at) (or_zero s.finished_at)
    || (or_zero r.finished_at == or_zero s.finished_at && session.id_le r.id s.id)

abbrev limit_of : ℤ → ℕ
limit_of (pos n) = n
limit_of (negsuc n) = 0

unfoldable pub list_dead_sql : Session → Bytes → Option ℕ → Bytes → ℤ → Table → List Row
unfolding select order_by past_cursor dead_in dead_le
list_dead_sql session queue time id limit t =
    take (limit_of limit) (
      order_by (dead_le session) (select (λ r. dead_in queue r && past_cursor session time id r) t))
