-- ===== src/Worker/Attempt.antt =====
-- runAttempt, heartbeat and callHandler of pkg/jobs/worker.go: one attempt as a state that events
-- move, in the order in which the scheduler, the store, the handler and the caller's context act.
pub mod Race
pub mod Ends
use gotth_jobs.Retry.{delay}
use gotth_jobs.Worker.Message.{bounded_failure}
use gotth_jobs.Common.{
  Bool, true, false, Option, none, some, List, [], ◌∷◌, if◌then◌else◌, ◌&&◌, ℤ, String, pos,
}
use gotth_jobs.Types.{Job, Failure}
use gotth_jobs.Errors.{
  Err, sentinel, handler_panicked, handler_finished, context_canceled, commit_outcome_unknown,
  job_canceled, is, wrapped, lease_reconciliation, is_permanent,
}
use gotth_jobs.Worker.{Worker, Store}

-- How the caller's handler ends.
pub data Handled : Type 0 where
  returned : Option Err → Handled
  panicked : Handled

-- callHandler
unfoldable pub call_handler : Handled → Option Err
call_handler (returned err) = err
call_handler panicked = some (sentinel handler_panicked)

-- The main goroutine, with callHandler's result once there is one: the handler runs, it has come
-- back, stopHeartbeat is closed, and the attempt's context is canceled.
pub data Main : Type 0 where
  handling : Main
  back : Option Err → Main
  stopped : Option Err → Main
  joining : Option Err → Main

-- The heartbeat goroutine: at its `select`, inside the store's Heartbeat, with an error to report,
-- and with its result in the channel.
pub data Beat : Type 0 where
  selecting : Beat
  calling : Beat
  failing : Err → Beat
  sent : Option Err → Beat

-- The attempt's context once it is canceled: what its Err and its Cause return.
pub record Canceled : Type 0 where
  pub err : Err
  pub cause : Err

pub record Attempt (S : Type 0) : Type 0 where
  pub state : S
  pub ended : Option Err
  pub canceled : Option Canceled
  pub main : Main
  pub beat : Beat

-- What may happen next: the caller's context ends with its Err and Cause, the handler ends, the main
-- goroutine or the heartbeat goroutine goes on, or others change the store's state. A tick and the
-- end of the context may both be ready; the event says which case of the `select` is taken.
pub data Event (S : Type 0) : Type 0 where
  caller_ends : Err → Err → Event S
  handler_ends : Handled → Event S
  main_goes_on : Event S
  ticks : Event S
  sees_stop : Event S
  sees_done : Event S
  beat_goes_on : Event S
  meanwhile : (S → S) → Event S

-- The first cancellation of a context counts.
abbrev pub cancel_with : Option Canceled → Err → Err → Option Canceled
cancel_with none err cause = some (record { err = err; cause = cause })
cancel_with (some c) err cause = some c

abbrev pub context_err : Option Canceled → Option Err
context_err none = none
context_err (some c) = some c.err

abbrev pub has_stopped : Main → Bool
has_stopped handling = false
has_stopped (back err) = false
has_stopped (stopped err) = true
has_stopped (joining err) = true

module _ {S : Type 0} where
  unfoldable pub start : Option Err → S → Attempt S
  start ended s = record {
    state = s;
    ended = ended;
    canceled = none;
    main = handling;
    beat = selecting;
  }

  unfoldable pub caller_step : Option Err → Err → Err → Attempt S → Attempt S
  caller_step (some e) err cause a = a
  caller_step none err cause a = record a {
    ended = some err;
    canceled = cancel_with a.canceled err cause;
  }

  -- close(stopHeartbeat), then cancel(errHandlerFinished)
  unfoldable pub main_step : Main → Attempt S → Attempt S
  main_step handling a = a
  main_step (back err) a = record a { main = stopped err }
  main_step (stopped err) a = record a {
    main = joining err;
    canceled = cancel_with a.canceled (sentinel context_canceled) (sentinel handler_finished);
  }
  main_step (joining err) a = a

  unfoldable pub handler_step : Main → Handled → Attempt S → Attempt S
  unfolding call_handler
  handler_step handling handled a = record a { main = back (call_handler handled) }
  handler_step other handled a = a

  -- The cases of the heartbeat's `select`.
  unfoldable pub tick_step : Beat → Attempt S → Attempt S
  tick_step selecting a = record a { beat = calling }
  tick_step other a = a

  unfoldable pub stop_step : Beat → Bool → Attempt S → Attempt S
  stop_step selecting true a = record a { beat = sent none }
  stop_step other stop a = a

  unfoldable pub done_step : Beat → Option Canceled → Attempt S → Attempt S
  done_step selecting (some c) a = record a { beat = failing c.err }
  done_step other canceled a = a

  -- The store's Heartbeat returns, and the loop goes on or ends.
  unfoldable pub answered : Option Err × S → Attempt S → Attempt S
  answered (none, s) a = record a { state = s; beat = selecting }
  answered (some err, s) a = record a { state = s; beat = failing err }

-- errors.Is(context.Cause(attemptContext), errHandlerFinished)
unfoldable pub finished_cause : Option Canceled → Bool
finished_cause none = false
finished_cause (some c) = is c.cause handler_finished

module _ {S : Type 0} (worker : Worker S) (store : Store S) (job : Job) where
  -- An error cancels the attempt's context before it is sent.
  unfoldable pub beat_step : Beat → Attempt S → Attempt S
  unfolding answered
  beat_step selecting a = a
  beat_step calling a =
      answered
        (store.heartbeat (record { err = context_err a.canceled }) job.lease worker.lease_duration
          a.state)
        a
  beat_step (failing err) a = record a {
    beat = sent (some err);
    canceled = cancel_with a.canceled (sentinel context_canceled) err;
  }
  beat_step (sent result) a = a

  -- An event that cannot happen changes nothing.
  unfoldable pub step : Event S → Attempt S → Attempt S
  unfolding caller_step main_step handler_step tick_step stop_step done_step beat_step
  step (caller_ends err cause) a = caller_step a.ended err cause a
  step (handler_ends handled) a = handler_step a.main handled a
  step main_goes_on a = main_step a.main a
  step ticks a = tick_step a.beat a
  step sees_stop a = stop_step a.beat (has_stopped a.main) a
  step sees_done a = done_step a.beat a.canceled a
  step beat_goes_on a = beat_step a.beat a
  step (meanwhile f) a = record a { state = f a.state }

  unfoldable pub play : List (Event S) → Attempt S → Attempt S
  unfolding step
  play [] a = a
  play (e ∷ rest) a = play rest (step e a)

  -- What runAttempt makes of the answer of Complete or of Fail.
  unfoldable pub acknowledged : String → (Job × Option Err) × S → Option Err × S
  acknowledged text ((answer, none), s) = (none, s)
  acknowledged text ((answer, some err), s) =
      if is err commit_outcome_unknown
      then (some (lease_reconciliation answer job.lease err), s)
      else (if is err job_canceled then (none, s) else (some (wrapped text err), s))

  unfoldable pub failure_of : Err → ℤ → Failure
  unfolding bounded_failure is_permanent
  failure_of err retry_after = record {
    message = bounded_failure err;
    retry_after = retry_after;
    permanent = is_permanent (some err);
  }

  -- The delay, unless the failure is permanent, and then Fail. The caller's context has not ended.
  unfoldable pub fail_after : Err → ℤ × Option Err → S → Option Err × S
  unfolding acknowledged failure_of
  fail_after err (retry_after, some invalid) s = (some invalid, s)
  fail_after err (retry_after, none) s =
      acknowledged "fail worker job"
        (store.fail (record { err = none }) job.lease (failure_of err retry_after) s)

  unfoldable pub retry_delay : Err → ℤ × Option Err
  unfolding is_permanent delay
  retry_delay err =
      if is_permanent (some err) then (pos 0, none) else delay worker.retry_policy job.attempts

  unfoldable pub acknowledge : Option Err → S → Option Err × S
  unfolding acknowledged fail_after retry_delay
  acknowledge none s =
      acknowledged "complete worker job" (store.complete (record { err = none }) job.lease s)
  acknowledge (some err) s = fail_after err (retry_delay err) s

  unfoldable pub lost : Err → Option Err
  lost err = if is err job_canceled then none else some (wrapped "heartbeat worker job" err)

  -- A heartbeat error that is no unknown commit outcome.
  unfoldable pub heartbeat_failed :
      Err → Option Err → Option Canceled → Option Err → S → Option Err × S
  unfolding acknowledge lost finished_cause
  heartbeat_failed err (some ended) canceled handler_err s = (some ended, s)
  heartbeat_failed err none canceled handler_err s =
      if is err context_canceled && finished_cause canceled
      then acknowledge handler_err s
      else (lost err, s)

  -- After `heartbeatErr := <-heartbeatResult`, with ctx.Err() and the attempt's context.
  unfoldable pub joined :
      Option Err → Option Err → Option Canceled → Option Err → S → Option Err × S
  unfolding acknowledge heartbeat_failed
  joined none (some ended) canceled handler_err s = (some ended, s)
  joined none none canceled handler_err s = acknowledge handler_err s
  joined (some err) ended canceled handler_err s =
      if is err commit_outcome_unknown
      then (some (lease_reconciliation job job.lease err), s)
      else heartbeat_failed err ended canceled handler_err s

  -- The result of an attempt, once the handler is done and the heartbeat has been joined.
  unfoldable pub result : Main → Beat → Attempt S → Option (Option Err × S)
  unfolding joined
  result (joining handler_err) (sent heartbeat_err) a =
      some (joined heartbeat_err a.ended a.canceled handler_err a.state)
  result main beat a = none

  unfoldable pub run_attempt : List (Event S) → Option Err → S → Option (Option Err × S)
  unfolding play start result
  run_attempt events ended s = let a = play events (start ended s) in result a.main a.beat a
