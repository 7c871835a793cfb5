-- ===== src/Engine/Unchecked.antt =====
-- The UPDATE statements on a table without CHECK constraints.
use gotth_jobs.Table.Statements.Claim.{candidate_rows, claim_row}
use gotth_jobs.Engine.Consistency.{execute-IsConsistent, execute-Accepted}
use gotth_jobs.Table.Statements.Consistency.{Accepted}
use gotth_jobs.Postgres.{
  JobStatement, claim_statement, complete_statement, fail_statement, cancel_statement,
  redrive_statement, get_statement,
}
use gotth_jobs.Table.Statements.{
  redrivable, redrive_row, cancelable, cancel_row, Session, heartbeat_sql, complete_sql, id_among,
  holds_lease, fail_sql, cancel_sql, heartbeat_row, redrive_sql, complete_row, fail_row,
}
use gotth_jobs.Engine.{
  execute, run, execute_job, Statement, IsLegal, enqueue_statement, job_statement,
  heartbeat_statement,
}
use gotth_jobs.Table.Statements.Claiming.{buried, claim_sql-done}
use gotth_jobs.Common.{
  ◌≡◌, refl, ap, Bool-cases, inl, inr, List, [], ◌∷◌, All, every, select, map, Bool, sym,
}
use gotth_jobs.Table.{Row, Table, IsConsistent, satisfies_checks}
use gotth_jobs.Table.Update.{Answer, update, update_rows}

-- Each statement, with no UPDATE refused. INSERT is as it was.
unfoldable pub unchecked_job : Session → JobStatement → Table → Table
unfolding buried update_rows
unchecked_job session (enqueue_statement id queue kind payload key fingerprint maximum available)
      t =
    (execute_job session (enqueue_statement id queue kind payload key fingerprint maximum available)
      t).1
unchecked_job session (claim_statement queue token worker micros) t =
    update_rows (id_among (candidate_rows session queue t)) (claim_row session token worker micros)
      (buried session queue t)
unchecked_job session (complete_statement id token) t =
    update_rows (holds_lease session id token) (complete_row session) t
unchecked_job session (fail_statement id token message permanent micros) t =
    update_rows (holds_lease session id token) (fail_row session message permanent micros) t
unchecked_job session (cancel_statement id) t = update_rows (cancelable id) (cancel_row session) t
unchecked_job session (redrive_statement id) t = update_rows (redrivable id) (redrive_row session) t
unchecked_job session (get_statement id) t = t

unfoldable pub unchecked : Session → Statement → Table → Table
unfolding unchecked_job
unchecked session (job_statement statement) t = unchecked_job session statement t
unchecked session (heartbeat_statement id token micros) t =
    update_rows (holds_lease session id token) (heartbeat_row session micros) t

unfoldable pub run_unchecked : Table → List (Session × Statement) → Table
unfolding unchecked
run_unchecked t [] = t
run_unchecked t ((session, statement) ∷ rest) = run_unchecked (unchecked session statement t) rest

not_refused :
    (p : Row → Bool) (f : Row → Row) (t : Table)
    → Accepted (update p f t)
    → update_rows p f t ≡ (update p f t).1
unfolding update
not_refused p f t (accepted, _) = elim (Bool-cases (every satisfies_checks (map f (select p t)))) [
  | inl e ↦ rw e refl
  | inr e ↦ absurd (accepted (rw e refl))
]

unchecked-same :
    (session : Session) (s : Statement) (t : Table)
    → IsLegal s
    → IsConsistent t
    → unchecked session s t ≡ (execute session s t).1
unfolding unchecked unchecked_job execute execute_job heartbeat_sql complete_sql fail_sql cancel_sql
    redrive_sql
unchecked-same session (job_statement (enqueue_statement id q k p key fp m a)) t l c = refl
unchecked-same session (job_statement (claim_statement queue token worker micros)) t (ht, hw) c =
    sym (
      ap (λ (y : Answer × Table). y.1) (claim_sql-done session queue token worker micros t c ht hw))
unchecked-same session (job_statement (complete_statement id token)) t l c =
    not_refused _ _ t
      (execute-Accepted session (job_statement (complete_statement id token)) t refl l c)
unchecked-same session (job_statement (fail_statement id token message permanent micros)) t l c =
    not_refused _ _ t (
      execute-Accepted session (job_statement (fail_statement id token message permanent micros)) t
        refl l c)
unchecked-same session (job_statement (cancel_statement id)) t l c =
    not_refused _ _ t (execute-Accepted session (job_statement (cancel_statement id)) t refl l c)
unchecked-same session (job_statement (redrive_statement id)) t l c =
    not_refused _ _ t (execute-Accepted session (job_statement (redrive_statement id)) t refl l c)
unchecked-same session (job_statement (get_statement id)) t l c = refl
unchecked-same session (heartbeat_statement id token micros) t l c =
    not_refused _ _ t (execute-Accepted session (heartbeat_statement id token micros) t refl l c)

-- The statements themselves keep the table consistent: on a table without CHECK constraints for its
-- UPDATEs, every history of statements with validated arguments leaves the table that it leaves with
-- them, whose rows satisfy every CHECK constraint and whose identifiers are distinct. The table is
-- consistent at first, and the clocks and the locks are any.
pub run_unchecked-IsConsistent :
    (t : Table) (history : List (Session × Statement))
    → All (λ (session, statement). IsLegal statement) history
    → IsConsistent t
    → IsConsistent (run_unchecked t history) × (run_unchecked t history ≡ run t history)
unfolding run_unchecked run
run_unchecked-IsConsistent t [] l c = (c, refl)
run_unchecked-IsConsistent t ((session, s) ∷ rest) (l, ls) c =
    let same = unchecked-same session s t l c in
    rw same (
      run_unchecked-IsConsistent (execute session s t).1 rest ls
        (execute-IsConsistent session s t l c))
