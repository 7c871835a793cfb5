-- ===== src/Engine/Evolution.antt =====
-- Every row lives on through every statement, and moves along the edges of the lifecycle.
use gotth_jobs.Postgres.{
  claim_statement, complete_statement, fail_statement, cancel_statement, redrive_statement,
  get_statement,
}
use gotth_jobs.Engine.Consistency.{execute-IsConsistent}
use gotth_jobs.Engine.{
  execute, run, Statement, IsLegal, job_statement, enqueue_statement, heartbeat_statement,
}
use gotth_jobs.Common.{ℕ, ◌≡◌, refl, sym, subst, [], ◌∷◌, In, arith, ◌⊎◌, ◌∙◌, List, All}
use gotth_jobs.Engine.Finds.{Survives, execute-Finds}
use gotth_jobs.Engine.Edges.{
  revive, Evolves, Evolves-refl, heartbeat-Evolves, complete-Evolves, fail-Evolves, cancel-Evolves,
  redrive-Evolves, exhausted-Evolves, claim-Evolves, Edge, stay, deliver, redeliver, finish, retry,
  bury, cancel_pending, cancel_running,
}
use gotth_jobs.Types.{State, succeeded, canceled}
use gotth_jobs.Table.{Row, Table, IsConsistent}
use gotth_jobs.Table.Statements.{Session}

-- A row of the table before is found, evolved, in the table after.
abbrev pub FindsEvolved : Row → Table → Type 0
FindsEvolved r t = (x : Row) × In x t × Evolves r x

-- Each change that a statement can make to a row follows an edge.
Evolves-Survives : (session : Session) (s : Statement) (r : Row) → Survives (Evolves r) session s r
Evolves-Survives session (job_statement (enqueue_statement id q k p key fp m a)) r = tt
Evolves-Survives session (job_statement (claim_statement queue token worker micros)) r =
    (exhausted-Evolves session queue r, claim-Evolves session queue token worker micros r)
Evolves-Survives session (job_statement (complete_statement id token)) r =
    complete-Evolves session id token r
Evolves-Survives session (job_statement (fail_statement id token message permanent micros)) r =
    fail-Evolves session id token message permanent micros r
Evolves-Survives session (job_statement (cancel_statement id)) r = cancel-Evolves session id r
Evolves-Survives session (job_statement (redrive_statement id)) r = redrive-Evolves session id r
Evolves-Survives session (job_statement (get_statement id)) r = tt
Evolves-Survives session (heartbeat_statement id token micros) r =
    λ _. heartbeat-Evolves session micros r

-- A statement on a consistent table deletes no row, changes no column of the request, the identifier
-- or the creation time of a row, and moves its state and attempts along one edge of the lifecycle at
-- most. This needs no validation of the statement's arguments.
pub execute-FindsEvolved :
    (session : Session) (s : Statement) (t : Table) (r : Row)
    → IsConsistent t
    → In r t
    → FindsEvolved r (execute session s t).1
execute-FindsEvolved session s t r c i =
    execute-Finds (Evolves r) session s t r c i (Evolves-refl r) (Evolves-Survives session s r)

-- A job that is done for good.
abbrev pub IsFinal : Row → Type 0
IsFinal r = (r.state ≡ succeeded) ⊎ (r.state ≡ canceled)

-- No edge but `stay` leaves a final state.
final-Edge :
    {s s' : State} {n n' : ℕ}
    → Edge s n s' n'
    → (s ≡ succeeded) ⊎ (s ≡ canceled)
    → (s' ≡ s) × (n' ≡ n)
final-Edge stay h = (refl, refl)
final-Edge deliver h = ground arith
final-Edge redeliver h = ground arith
final-Edge finish h = ground arith
final-Edge retry h = ground arith
final-Edge bury h = ground arith
final-Edge cancel_pending h = ground arith
final-Edge cancel_running h = ground arith
final-Edge revive h = ground arith

-- Whatever statements follow, with validated arguments, a job that has succeeded or was canceled is
-- still there in the same state, with the same number of attempts.
pub run_final :
    (t : Table) (history : List (Session × Statement)) (r : Row)
    → All (λ (session, statement). IsLegal statement) history
    → IsConsistent t
    → In r t
    → IsFinal r
    → (x : Row) × In x (run t history)
      × (x.id ≡ r.id)
      × (x.state ≡ r.state)
      × (x.attempts ≡ r.attempts)
unfolding run
run_final t [] r l c m f = (r, m, refl, refl, refl)
run_final t ((session, statement) ∷ rest) r (l, ls) c m f =
    let (x, n, v) = execute-FindsEvolved session statement t r c m in
    let (same_state, same_attempts) = final-Edge v.edge f in
    let (y, k, i, s, a) =
      run_final (execute session statement t).1 rest x ls
        (execute-IsConsistent session statement t l c) n
        (subst (λ z. (z ≡ succeeded) ⊎ (z ≡ canceled)) (sym same_state) f) in
    (y, k, i ∙ v.envelope.0, s ∙ same_state, a ∙ same_attempts)
