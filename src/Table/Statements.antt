-- ===== src/Table/Statements.antt =====
-- The SQL statements of enqueue.go, lifecycle.go and operations.go on the table. A statement runs as
-- one step. `clock_timestamp()` may give another reading at every place of the statement and at
-- every row; rows that other transactions hold locked are those that SKIP LOCKED passes over; the
-- order of the identifiers is the database's collation.
pub mod Claim
pub mod Claiming
pub mod Checks
pub mod Disjoint
pub mod Consistency
pub mod Fencing
pub mod Order
pub mod Reads
pub mod Sorted
pub mod Pages
use gotth_jobs.Common.{
  ℕ, suc, ◌+◌, ◌-◌, ◌/◌, ℤ, pos, negsuc, Bool, true, false, not, ◌&&◌, ◌||◌, Option, none, some,
  List, [], ◌∷◌, ◌++◌, map, ltb, leb, ◌==◌, if◌then◌else◌, length, every, select, head?, take,
  order_by,
}
use gotth_jobs.Bytes.{Bytes, bytes_eq, codes}
use gotth_jobs.Types.{State, pending, running, succeeded, dead, canceled}
use gotth_jobs.Table.{Row, Table, satisfies_checks}
use gotth_jobs.Table.Update.{Answer, rows, constraint_violation, update_rows, update}

-- The places where a statement reads the clock.
pub data Reading : Type 0 where
  at_where at_lease at_finished at_updated at_available at_created : Reading

pub record Session : Type 0 where
  pub clock : Reading → Bytes → ℕ
  pub locked : Bytes → Bool
  pub id_le : Bytes → Bytes → Bool

abbrev pub in_state : State → State → Bool
in_state pending pending = true
in_state running running = true
in_state succeeded succeeded = true
in_state dead dead = true
in_state canceled canceled = true
in_state _ _ = false

-- `column <= value` and `column > value` are not true of NULL.
abbrev pub at_most : Option ℕ → ℕ → Bool
at_most none n = false
at_most (some m) n = leb m n

abbrev pub after : Option ℕ → ℕ → Bool
after none n = false
after (some m) n = ltb n m

abbrev pub text_is : Option Bytes → Bytes → Bool
text_is none b = false
text_is (some a) b = bytes_eq a b

-- clock_timestamp() + ($n * interval '1 microsecond')
abbrev pub plus_micros : ℕ → ℤ → ℕ
plus_micros t (pos n) = t + n
plus_micros t (negsuc n) = t - suc n

-- WHERE id = $1 AND lease_token = $2 AND state = 'running' AND lease_until > clock_timestamp()
unfoldable pub holds_lease : Session → Bytes → Bytes → Row → Bool
holds_lease session id token r =
    bytes_eq r.id id
    && (text_is r.lease_token token
        && (in_state r.state running && after r.lease_until (session.clock at_where r.id)))

unfoldable pub heartbeat_row : Session → ℤ → Row → Row
heartbeat_row session micros r = record r {
  lease_until = some (plus_micros (session.clock at_lease r.id) micros);
  updated_at = session.clock at_updated r.id;
}

unfoldable pub heartbeat_sql : Session → Bytes → Bytes → ℤ → Table → Answer × Table
unfolding holds_lease heartbeat_row update
heartbeat_sql session id token micros =
    update (holds_lease session id token) (heartbeat_row session micros)

unfoldable pub complete_row : Session → Row → Row
complete_row session r = record r {
  state = succeeded;
  lease_token = none;
  lease_owner = none;
  lease_until = none;
  finished_at = some (session.clock at_finished r.id);
  updated_at = session.clock at_updated r.id;
}

unfoldable pub complete_sql : Session → Bytes → Bytes → Table → Answer × Table
unfolding holds_lease complete_row update
complete_sql session id token = update (holds_lease session id token) (complete_row session)

-- $4 OR attempts >= max_attempts
unfoldable pub exhausts : Bool → Row → Bool
exhausts permanent r = permanent || leb r.max_attempts r.attempts

unfoldable pub fail_row : Session → Bytes → Bool → ℤ → Row → Row
unfolding exhausts
fail_row session message permanent micros r = record r {
  state = if exhausts permanent r then dead else pending;
  available_at =
      if exhausts permanent r
      then r.available_at
      else plus_micros (session.clock at_available r.id) micros;
  lease_token = none;
  lease_owner = none;
  lease_until = none;
  last_error = message;
  finished_at = if exhausts permanent r then some (session.clock at_finished r.id) else none;
  updated_at = session.clock at_updated r.id;
}

unfoldable pub fail_sql : Session → Bytes → Bytes → Bytes → Bool → ℤ → Table → Answer × Table
unfolding holds_lease fail_row update
fail_sql session id token message permanent micros =
    update (holds_lease session id token) (fail_row session message permanent micros)

unfoldable pub cancelable : Bytes → Row → Bool
cancelable id r = bytes_eq r.id id && (in_state r.state pending || in_state r.state running)

unfoldable pub cancel_row : Session → Row → Row
cancel_row session r = record r {
  state = canceled;
  lease_token = none;
  lease_owner = none;
  lease_until = none;
  finished_at = some (session.clock at_finished r.id);
  updated_at = session.clock at_updated r.id;
}

unfoldable pub cancel_sql : Session → Bytes → Table → Answer × Table
unfolding cancelable cancel_row update
cancel_sql session id = update (cancelable id) (cancel_row session)

unfoldable pub redrivable : Bytes → Row → Bool
redrivable id r = bytes_eq r.id id && in_state r.state dead

unfoldable pub redrive_row : Session → Row → Row
redrive_row session r = record r {
  state = pending;
  attempts = 0;
  available_at = session.clock at_available r.id;
  lease_token = none;
  lease_owner = none;
  lease_until = none;
  last_error = [];
  finished_at = none;
  updated_at = session.clock at_updated r.id;
}

unfoldable pub redrive_sql : Session → Bytes → Table → Answer × Table
unfolding redrivable redrive_row update
redrive_sql session id = update (redrivable id) (redrive_row session)

-- job.id = candidate.id, for the rows of a CTE
unfoldable pub id_among : List Row → Row → Bool
id_among [] r = false
id_among (s ∷ rest) r = bytes_eq r.id s.id || id_among rest r

-- NULLIF($5, '')
abbrev pub null_if_empty : Bytes → Option Bytes
null_if_empty [] = none
null_if_empty (b ∷ rest) = some (b ∷ rest)

abbrev pub or_default {ℓ} : {A : Type ℓ} → Option A → A → A
or_default none d = d
or_default (some a) d = a

-- The row of the INSERT, with the defaults of the table.
unfoldable pub new_row :
    Session → Bytes → Bytes → Bytes → Bytes → Bytes → Bytes → ℕ → Option ℕ → Row
new_row session id queue kind payload key fingerprint maximum available = record {
  id = id;
  queue = queue;
  kind = kind;
  payload = payload;
  idempotency_key = null_if_empty key;
  request_fingerprint = fingerprint;
  state = pending;
  attempts = 0;
  max_attempts = maximum;
  available_at = or_default available (session.clock at_available id);
  created_at = session.clock at_created id;
  updated_at = session.clock at_updated id;
  lease_token = none;
  lease_owner = none;
  lease_until = none;
  last_error = [];
  finished_at = none;
}

-- The unique index on (queue, idempotency_key), in which NULL keys are distinct.
abbrev pub same_key : Option Bytes → Option Bytes → Bool
same_key none k = false
same_key (some j) k = text_is k j

unfoldable pub conflicts : Row → Row → Bool
conflicts new r = bytes_eq r.queue new.queue && same_key new.idempotency_key r.idempotency_key

-- INSERT … ON CONFLICT (queue, idempotency_key) DO NOTHING RETURNING …: the CHECK constraints come
-- first, then the index of the conflict clause, then the primary key.
unfoldable pub insert_row : Row → Table → Answer × Table
unfolding conflicts id_among
insert_row new t =
    if not (satisfies_checks new)
    then (constraint_violation, t)
    else (if not (every (λ r. not (conflicts new r)) t)
        then (rows [], t)
        else (if id_among t new then (constraint_violation, t) else (rows (new ∷ []), new ∷ t)))
