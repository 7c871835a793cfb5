-- ===== src/Engine/Exclusive.antt =====
-- A job under a lease that has not run out belongs to the holder of the lease.
use gotth_jobs.Common.{
  ℕ, ◌<◌, ◌≡◌, refl, subst, Bool, true, false, In, All, All-of, List, [], ◌∷◌, ◌&&◌, arith, some,
}
use gotth_jobs.Bytes.{Bytes, bytes_eq, bytes_eq_self}
use gotth_jobs.Types.{running}
use gotth_jobs.Postgres.{
  claim_statement, complete_statement, fail_statement, cancel_statement, redrive_statement,
  get_statement, enqueue_statement,
}
use gotth_jobs.Engine.{execute, run, Statement, IsLegal, job_statement, heartbeat_statement}
use gotth_jobs.Engine.Finds.{Survives, execute-Finds}
use gotth_jobs.Engine.Consistency.{execute-IsConsistent, run-IsConsistent}
use gotth_jobs.Table.{Row, Table, IsConsistent}
use gotth_jobs.Table.Update.{rows}
use gotth_jobs.Table.Statements.Fencing.{holds_lease-id}
use gotth_jobs.Table.Lookup.{put, update-single}
use gotth_jobs.Table.Statements.Checks.{complete_row-checked}
use gotth_jobs.Table.Statements.{
  Session, at_where, text_is, holds_lease, cancelable, redrivable, complete_row, complete_sql,
}
use gotth_jobs.Table.Statements.Claim.{claimable, expired_exhausted}

-- The row runs under a lease that lasts until `until`.
abbrev pub IsLeased : Row → ℕ → Type 0
IsLeased r until = (r.state ≡ running) × (r.lease_until ≡ some until)

-- A statement that presents the lease of the row, or cancels its job.
abbrev pub concerns : Row → Statement → Bool
concerns r (job_statement (complete_statement id token)) =
    bytes_eq r.id id && text_is r.lease_token token
concerns r (job_statement (fail_statement id token message permanent micros)) =
    bytes_eq r.id id && text_is r.lease_token token
concerns r (job_statement (cancel_statement id)) = bytes_eq r.id id
concerns r (heartbeat_statement id token micros) = bytes_eq r.id id && text_is r.lease_token token
concerns r _ = false

module _ (session : Session) (r : Row) (until : ℕ) (leased : IsLeased r until)
    (live : session.clock at_where r.id < until) where
  not_claimable : (queue : Bytes) → claimable session queue r ≡ false
  unfolding claimable
  not_claimable queue = rw (leased.0, leased.1) (ground arith)

  not_expired : (queue : Bytes) → expired_exhausted session queue r ≡ false
  unfolding expired_exhausted
  not_expired queue = rw (leased.0, leased.1) (ground arith)

  not_redrivable : (id : Bytes) → redrivable id r ≡ false
  unfolding redrivable
  not_redrivable id = rw leased.0 (ground arith)

  not_held :
      (id token : Bytes)
      → (bytes_eq r.id id && text_is r.lease_token token) ≡ false
      → holds_lease session id token r ≡ false
  unfolding holds_lease
  not_held id token h = ground arith

  stays-Survives : (s : Statement) → concerns r s ≡ false → Survives (λ x. x ≡ r) session s r
  stays-Survives (job_statement (enqueue_statement id q k p key fp m a)) h = tt
  stays-Survives (job_statement (claim_statement queue token worker micros)) h =
      ((λ e. cc (not_expired queue, e)), λ e. cc (not_claimable queue, e))
  stays-Survives (job_statement (complete_statement id token)) h = λ e. cc (not_held id token h, e)
  stays-Survives (job_statement (fail_statement id token message permanent micros)) h =
      λ e. cc (not_held id token h, e)
  stays-Survives (job_statement (cancel_statement id)) h = λ e. absurd (not_canceled id h e)
    where
      not_canceled : (id : Bytes) → bytes_eq r.id id ≡ false → cancelable id r ≡ true → ⊥
      not_canceled id h e = unfold cancelable in ground arith
  stays-Survives (job_statement (redrive_statement id)) h = λ e. cc (not_redrivable id, e)
  stays-Survives (job_statement (get_statement id)) h = tt
  stays-Survives (heartbeat_statement id token micros) h = λ e. cc (not_held id token h, e)

  execute-stays :
      (s : Statement) (t : Table)
      → IsConsistent t
      → In r t
      → concerns r s ≡ false
      → In r (execute session s t).1
  execute-stays s t c m h =
      let (x, n, e) = execute-Finds (λ y. y ≡ r) session s t r c m refl (stays-Survives s h) in
      subst (λ y. In y (execute session s t).1) e n

-- The statements of others, while the lease lasts.
abbrev pub IsElsewhere : Row → ℕ → Session × Statement → Type 0
IsElsewhere r until (session, s) =
    IsLegal s × (session.clock at_where r.id < until) × (concerns r s ≡ false)

-- Whatever others do before a lease runs out, claims, redrives and the expiry of other jobs included,
-- the row of the leased job stays exactly as it is, unless somebody presents its token or cancels it.
pub run_stays :
    (t : Table) (history : List (Session × Statement)) (r : Row) (until : ℕ)
    → IsConsistent t
    → In r t
    → IsLeased r until
    → All (IsElsewhere r until) history
    → In r (run t history)
unfolding run
run_stays t [] r until c m leased h = m
run_stays t ((session, s) ∷ rest) r until c m leased ((legal, live, apart), hs) =
    run_stays (execute session s t).1 rest r until (execute-IsConsistent session s t legal c)
      (execute-stays session r until leased live s t c m apart) leased hs

IsLegal-of :
    (r : Row) (until : ℕ) (history : List (Session × Statement))
    → All (IsElsewhere r until) history
    → All (λ (session, statement). IsLegal statement) history
IsLegal-of r until [] h = tt
IsLegal-of r until ((session, s) ∷ rest) ((legal, _, _), hs) = (legal, IsLegal-of r until rest hs)

holds_own :
    (session : Session) (r : Row) (token : Bytes) (until : ℕ)
    → IsLeased r until
    → r.lease_token ≡ some token
    → session.clock at_where r.id < until
    → holds_lease session r.id token r ≡ true
unfolding holds_lease
holds_own session r token until leased e live =
    rw (leased.0, leased.1, e, bytes_eq_self r.id, bytes_eq_self token) (ground arith)

-- The holder of a lease that completes its job before the lease runs out succeeds, whatever statements
-- others have sent since, if none of them presented its token or canceled the job: the job is
-- succeeded, and no other row changes.
pub acknowledged_in_time :
    (t : Table) (history : List (Session × Statement)) (r : Row) (until : ℕ) (later : Session)
    (token : Bytes)
    → IsConsistent t
    → In r t
    → IsLeased r until
    → r.lease_token ≡ some token
    → All (IsElsewhere r until) history
    → later.clock at_where r.id < until
    → complete_sql later r.id token (run t history)
      ≡ (rows (complete_row later r ∷ []), put (complete_row later r) (run t history))
unfolding complete_sql
acknowledged_in_time t history r until later token c m leased e h live =
    let kept = run-IsConsistent t history (IsLegal-of r until history h) c in
    update-single (holds_lease later r.id token) (complete_row later) (run t history) r kept
      (run_stays t history r until c m leased h) (holds_own later r token until leased e live)
      (holds_lease-id later r.id token)
      (All-of _ _ (λ y _. complete_row-checked later r.id token y))
      (λ y. unfold complete_row in refl)
