-- ===== src/Engine/Consistency.antt =====
-- The constraints of the table over every history of statements.
use gotth_jobs.Common.{
  ℕ, ℤ, pos, negsuc, ◌≡◌, refl, Bool, true, Option, none, some, List, [], ◌∷◌, All, false,
}
use gotth_jobs.Bytes.{Bytes}
use gotth_jobs.Table.{Table, IsConsistent}
use gotth_jobs.Table.Statements.{Session}
use gotth_jobs.Table.Statements.Consistency.{
  Accepted, heartbeat_sql-Accepted, complete_sql-Accepted, fail_sql-Accepted, cancel_sql-Accepted,
  redrive_sql-Accepted, claim_sql-Accepted, insert_row-IsConsistent,
}
use gotth_jobs.Postgres.{
  enqueue_statement, claim_statement, complete_statement, fail_statement, cancel_statement,
  redrive_statement, get_statement,
}
use gotth_jobs.Engine.{
  Statement, job_statement, heartbeat_statement, insert_sql, execute, run, IsLegal,
}

insert_sql-IsConsistent :
    (session : Session) (id queue kind : Bytes) (payload : Option Bytes) (key fingerprint : Bytes)
    (maximum : ℤ) (available : Option ℕ) (t : Table)
    → IsConsistent t
    → IsConsistent (insert_sql session id queue kind payload key fingerprint maximum available t).1
unfolding insert_sql
insert_sql-IsConsistent session id queue kind none key fingerprint maximum available t c = c
insert_sql-IsConsistent session id queue kind (some p) key fingerprint (negsuc n) available t c = c
insert_sql-IsConsistent session id queue kind (some p) key fingerprint (pos n) available t c =
    insert_row-IsConsistent _ t c

-- Every statement other than an insertion is accepted by the constraints.
abbrev is_insertion : Statement → Bool
is_insertion
      (job_statement (enqueue_statement id queue kind payload key fingerprint maximum available)) =
    true
is_insertion _ = false

-- No statement other than an insertion is refused by a constraint of a consistent table, if its
-- token, worker and message have been validated; it leaves a consistent table.
pub execute-Accepted :
    (session : Session) (s : Statement) (t : Table)
    → is_insertion s ≡ false
    → IsLegal s
    → IsConsistent t
    → Accepted (execute session s t)
unfolding execute
execute-Accepted session (job_statement (enqueue_statement id q k p key fp m a)) t i l c = cc
execute-Accepted session (job_statement (claim_statement queue token worker micros)) t i (ht, hw)
      c =
    claim_sql-Accepted session queue t c token worker micros ht hw
execute-Accepted session (job_statement (complete_statement id token)) t i l c =
    complete_sql-Accepted session t c id token
execute-Accepted session (job_statement (fail_statement id token message permanent micros)) t i l
      c =
    fail_sql-Accepted session t c id token message permanent micros l
execute-Accepted session (job_statement (cancel_statement id)) t i l c =
    cancel_sql-Accepted session t c id
execute-Accepted session (job_statement (redrive_statement id)) t i l c =
    redrive_sql-Accepted session t c id
execute-Accepted session (job_statement (get_statement id)) t i l c = ((λ e. cc), c)
execute-Accepted session (heartbeat_statement id token micros) t i l c =
    heartbeat_sql-Accepted session t c id token micros

pub execute-IsConsistent :
    (session : Session) (s : Statement) (t : Table)
    → IsLegal s
    → IsConsistent t
    → IsConsistent (execute session s t).1
execute-IsConsistent session (job_statement (enqueue_statement id q k p key fp m a)) t l c =
    unfold execute in insert_sql-IsConsistent session id q k p key fp m _ t c
execute-IsConsistent session (job_statement (claim_statement queue token worker micros)) t l c =
    (execute-Accepted session _ t refl l c).1
execute-IsConsistent session (job_statement (fail_statement id token message permanent micros)) t l
      c =
    (execute-Accepted session _ t refl l c).1
execute-IsConsistent session s t l c = (execute-Accepted session s t refl l c).1

-- Whatever the order of the statements, their clocks and the locks that they meet, a table that
-- starts consistent satisfies every CHECK constraint, and its identifiers stay distinct.
pub run-IsConsistent :
    (t : Table) (history : List (Session × Statement))
    → All (λ (session, statement). IsLegal statement) history
    → IsConsistent t
    → IsConsistent (run t history)
unfolding run
run-IsConsistent t [] l c = c
run-IsConsistent t ((session, statement) ∷ rest) (l, ls) c =
    run-IsConsistent (execute session statement t).1 rest ls
      (execute-IsConsistent session statement t l c)
