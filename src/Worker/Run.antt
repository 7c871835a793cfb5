-- ===== src/Worker/Run.antt =====
-- Worker.Run of pkg/jobs/worker.go: the claim loop, over what the environment does in every round.
use gotth_jobs.Common.{not, Option, none, some, List, [], ◌∷◌, if◌then◌else◌, length, ◌==◌}
use gotth_jobs.Types.{Job}
use gotth_jobs.Errors.{
  Err, is, commit_outcome_unknown, no_job, wrapped, invalid_error, claim_reconciliation,
}
use gotth_jobs.Postgres.{Context}
use gotth_jobs.Worker.{Worker, Store, claim_request, validate_worker, validate_claimed}
use gotth_jobs.Worker.Attempt.{Event, play, start, run_attempt}

-- How a wait ends: the timer fires, or the context ends with its Err.
pub data Waited : Type 0 where
  timer_fires : Waited
  context_ends : Err → Waited

-- waitContext
unfoldable pub wait_context : Waited → Option Err
wait_context timer_fires = none
wait_context (context_ends err) = some err

-- What ctx.Err() returns at the head of the loop, how waitContext ends if it is called, and the
-- events of the attempt if there is one.
pub record Round (S : Type 0) : Type 0 where
  pub head : Option Err
  pub wait : Waited
  pub events : List (Event S)

-- Where the loop is after some rounds: at its head again, inside an attempt, or done.
pub data Turn (S : Type 0) : Type 0 where
  goes_on : S → Turn S
  attempting : S → Turn S
  returns : Err → S → Turn S

abbrev pub state_of : {S : Type 0} → Turn S → S
state_of (goes_on s) = s
state_of (attempting s) = s
state_of (returns err s) = s

-- return err, or the next round
abbrev pub after : {S : Type 0} → Option Err → S → Turn S
after none s = goes_on s
after (some err) s = returns err s

module _ {S : Type 0} (worker : Worker S) (store : Store S) where
  unfoldable pub attempted : S → Option (Option Err × S) → Turn S
  attempted s none = attempting s
  attempted s (some (err, s')) = after err s'

  unfoldable pub handled : Round S → Job → Option Err → S → Turn S
  unfolding attempted play start run_attempt
  handled round job (some err) s = returns err s
  handled round job none s =
      attempted (play worker store job round.events (start none s)).state
        (run_attempt worker store job round.events none s)

  -- The tests on what Claim returns, in the order of the source.
  unfoldable pub claimed : Round S → (Job × Option Err) × S → Turn S
  unfolding handled wait_context
  claimed round ((job, none), s) =
      handled round job (validate_claimed job worker.queue worker.worker_id) s
  claimed round ((job, some err), s) =
      if is err commit_outcome_unknown
      then (if not (length job.id == 0)
          then returns (claim_reconciliation job err) s
          else returns (wrapped "claim worker job" err) s)
      else (if is err no_job
          then after (wait_context round.wait) s
          else returns (wrapped "claim worker job" err) s)

  unfoldable pub turn : Round S → Option Err → S → Turn S
  unfolding claimed claim_request
  turn round (some err) s = returns err s
  turn round none s = claimed round (store.claim (record { err = none }) (claim_request worker) s)

  unfoldable pub continue : Turn S → (S → Turn S) → Turn S
  continue (goes_on s) rest = rest s
  continue (attempting s) rest = attempting s
  continue (returns err s) rest = returns err s

  unfoldable pub loop : List (Round S) → S → Turn S
  unfolding turn continue
  loop [] s = goes_on s
  loop (round ∷ rounds) s = continue (turn round round.head s) (loop rounds)

  unfoldable pub configured : Option Err → List (Round S) → S → Turn S
  unfolding loop
  configured (some err) rounds s = returns err s
  configured none rounds s = loop rounds s

module _ {S : Type 0} (worker : Worker S) where
  -- A worker without a store does not pass validate.
  unfoldable pub with_store : Option (Store S) → Option Err → List (Round S) → S → Turn S
  unfolding configured
  with_store none (some err) rounds s = returns err s
  with_store none none rounds s = goes_on s
  with_store (some store) invalid rounds s = configured worker store invalid rounds s

  unfoldable pub run : Option Context → List (Round S) → S → Turn S
  unfolding with_store validate_worker
  run none rounds s = returns (invalid_error "context is required") s
  run (some ctx) rounds s = with_store worker.store (validate_worker worker) rounds s
