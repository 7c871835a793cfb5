-- ===== src/Worker/Sent.antt =====
-- The statements that an attempt of the worker sends.
use gotth_jobs.Calls.Safety.{complete-Keeping, beat-Keeping, fail-Keeping}
use gotth_jobs.Calls.Keeping.{if-P}
use gotth_jobs.Calls.Sent.{recording, recording-Preserves}
use gotth_jobs.Worker.Repository.{postgresql_store}
use gotth_jobs.Bytes.{Bytes}
use gotth_jobs.Postgres.{Database, Context}
use gotth_jobs.Worker.Reconciliation.{acknowledgement, store_of}
use gotth_jobs.Lifecycle.{microseconds}
use gotth_jobs.Types.{Job}
use gotth_jobs.Errors.{Err, is, commit_outcome_unknown, context_canceled, job_canceled}
use gotth_jobs.Engine.{Statement, heartbeat_statement, job_statement}
use gotth_jobs.Worker.{Worker, Store}
use gotth_jobs.Worker.Attempt.{
  Main, Event, back, handler_ends, meanwhile, stopped, play, step, Attempt, joining, handling,
  beat_step, acknowledged, joined, acknowledge, fail_after, heartbeat_failed, failure_of, Canceled,
  retry_delay, finished_cause, caller_ends, result, Beat, context_err, has_stopped, sent, failing,
  main_goes_on, ticks, selecting, sees_stop, calling, sees_done, beat_goes_on, run_attempt, start,
}
use gotth_jobs.Common.{
  ℤ, ◌≡◌, ◌⊎◌, refl, sym, Option, none, some, List, [], ◌∷◌, All, inl, inr, ◌&&◌, String, ◌∙◌,
  subst,
}
use gotth_jobs.Worker.Reported.{
  handler_result, reported, play-reported, caller_state, handler_state, main_state, tick_state,
  stop_state, done_state, answered_state,
}

some_eq : {A : Type 0} {a b : A} → some a ≡ some b → a ≡ b
some_eq e = cc

-- A statement that extends the lease of a job, or acknowledges what its handler came back with.
abbrev pub IsProper : {S : Type 0} → Worker S → Store S → Job → Option Err → Statement → Type 0
IsProper worker store job handler_err q =
    (q ≡ heartbeat_statement job.lease.job_id job.lease.token (microseconds worker.lease_duration))
    ⊎ (q ≡ job_statement (acknowledgement worker store job handler_err))

-- What others do to the database meanwhile is not among the worker's statements.
abbrev pub IsSilent : {S : Type 0} → Event (S × List Statement) → Type 0
IsSilent (meanwhile f) = (x : _) → (f x).1 ≡ x.1
IsSilent e = Unit {0}

module _ {S : Type 0} (worker : Worker (S × List Statement)) (database : Database S)
    (entropy : S × List Statement → Bytes × Option Err) (job : Job) where
  -- The repository over the database that writes its statements down.
  abbrev pub noted : Store (S × List Statement)
  noted = store_of (recording database) entropy

  abbrev IsProperLog : Option Err → S × List Statement → Type 0
  IsProperLog handler_err x = All (IsProper worker noted job handler_err) x.1

  beat_sent :
      (h : Option Err) (ctx : Context) (x : S × List Statement)
      → IsProperLog h x
      → IsProperLog h (noted.heartbeat ctx job.lease worker.lease_duration x).1
  unfolding postgresql_store
  beat_sent h ctx x p =
      beat-Keeping (IsProper worker noted job h) (IsProperLog h) (recording database)
        (recording-Preserves (IsProper worker noted job h) database) (some ctx) job.lease
        worker.lease_duration (λ _. inl refl) x p

  acknowledged_log :
      (h : Option Err) (text : String) (r : (Job × Option Err) × (S × List Statement))
      → IsProperLog h r.1
      → IsProperLog h (acknowledged worker noted job text r).1
  unfolding acknowledged
  acknowledged_log h text ((answer, none), x) p = p
  acknowledged_log h text ((answer, some err), x) p =
      if-P (IsProperLog h) (is err commit_outcome_unknown) _ _ p
        (if-P (IsProperLog h) (is err job_canceled) _ _ p p)

  failure_sent :
      (err : Err) (d : ℤ × Option Err) (x : S × List Statement)
      → retry_delay worker noted job err ≡ d
      → IsProperLog (some err) x
      → IsProperLog (some err) (fail_after worker noted job err d x).1
  unfolding fail_after failure_of postgresql_store
  failure_sent err (d, some e) x delayed p = p
  failure_sent err (d, none) x delayed p = acknowledged_log (some err) "fail worker job" _ (
      fail-Keeping (IsProper worker noted job (some err)) (IsProperLog (some err))
        (recording database) (recording-Preserves (IsProper worker noted job (some err)) database)
        (some (record { err = none })) job.lease (failure_of worker noted job err d)
        (λ _. inr (rw delayed refl)) x p)

  acknowledge_sent :
      (h : Option Err) (x : S × List Statement)
      → IsProperLog h x
      → IsProperLog h (acknowledge worker noted job h x).1
  unfolding acknowledge postgresql_store
  acknowledge_sent none x p = acknowledged_log none "complete worker job" _ (
      complete-Keeping (IsProper worker noted job none) (IsProperLog none) (recording database)
        (recording-Preserves (IsProper worker noted job none) database)
        (some (record { err = none })) job.lease (λ _. inr refl) x p)
  acknowledge_sent (some err) x p = failure_sent err (retry_delay worker noted job err) x refl p

  joined_sent :
      (r ended : Option Err) (c : Option Canceled) (h : Option Err) (x : S × List Statement)
      → IsProperLog h x
      → IsProperLog h (joined worker noted job r ended c h x).1
  unfolding joined heartbeat_failed
  joined_sent none (some e) c h x p = p
  joined_sent none none c h x p = acknowledge_sent h x p
  joined_sent (some err) (some e) c h x p =
      if-P (IsProperLog h) (is err commit_outcome_unknown) _ _ p p
  joined_sent (some err) none c h x p = if-P (IsProperLog h) (is err commit_outcome_unknown) _ _ p (
      if-P (IsProperLog h) (is err context_canceled && finished_cause c) _ _
        (acknowledge_sent h x p) p)

  beat_step_sent :
      (h : Option Err) (b : Beat) (a : Attempt (S × List Statement))
      → IsProperLog h a.state
      → IsProperLog h (beat_step worker noted job b a).state
  unfolding beat_step
  beat_step_sent h selecting a p = p
  beat_step_sent h calling a p =
      rw
        (answered_state a (
          noted.heartbeat (record { err = context_err a.canceled }) job.lease worker.lease_duration
            a.state))
        (beat_sent h _ a.state p)
  beat_step_sent h (failing err) a p = p
  beat_step_sent h (sent r) a p = p

  step_sent :
      (h : Option Err) (e : Event (S × List Statement)) (a : Attempt (S × List Statement))
      → IsSilent e
      → IsProperLog h a.state
      → IsProperLog h (step worker noted job e a).state
  unfolding step
  step_sent h (caller_ends err cause) a k p = rw (caller_state a a.ended err cause) p
  step_sent h (handler_ends handled) a k p = rw (handler_state a a.main handled) p
  step_sent h main_goes_on a k p = rw (main_state a a.main) p
  step_sent h ticks a k p = rw (tick_state a a.beat) p
  step_sent h sees_stop a k p = rw (stop_state a a.beat (has_stopped a.main)) p
  step_sent h sees_done a k p = rw (done_state a a.beat a.canceled) p
  step_sent h beat_goes_on a k p = beat_step_sent h a.beat a p
  step_sent h (meanwhile f) a k p = rw (k a.state) p

  play_sent :
      (h : Option Err) (events : List (Event (S × List Statement)))
      (a : Attempt (S × List Statement))
      → All IsSilent events
      → IsProperLog h a.state
      → IsProperLog h (play worker noted job events a).state
  unfolding play
  play_sent h [] a k p = p
  play_sent h (e ∷ rest) a (k, ks) p =
      play_sent h rest (step worker noted job e a) ks (step_sent h e a k p)

  -- An attempt that has a result has joined the heartbeat after the handler came back.
  result_sent :
      (m : Main) (b : Beat) (a : Attempt (S × List Statement)) (h : Option Err)
      (r : Option Err × (S × List Statement))
      → reported m ≡ some h
      → result worker noted job m b a ≡ some r
      → IsProperLog h a.state
      → IsProperLog h r.1
  unfolding result
  result_sent (joining g) (sent e) a h r m same p =
      subst (λ y. IsProperLog h y.1) (some_eq same)
        (rw (some_eq (sym m))
          (joined_sent e a.ended a.canceled g a.state (rw (some_eq (sym m)) at p)))
  result_sent (joining g) selecting a h r m same p = cc
  result_sent (joining g) calling a h r m same p = cc
  result_sent (joining g) (failing err) a h r m same p = cc
  result_sent handling b a h r m same p = cc
  result_sent (back g) b a h r m same p = cc
  result_sent (stopped g) b a h r m same p = cc

  result-reported :
      (m : Main) (b : Beat) (a : Attempt (S × List Statement))
      (r : Option Err × (S × List Statement))
      → result worker noted job m b a ≡ some r
      → (h : Option Err) × (reported m ≡ some h)
  unfolding result
  result-reported (joining g) b a r same = (g, refl)
  result-reported handling b a r same = cc
  result-reported (back g) b a r same = cc
  result-reported (stopped g) b a r same = cc

  -- Whatever comes in whatever order, an attempt that ends has sent only heartbeats of its job's lease
  -- and the acknowledgement of what its handler came back with: Complete if that was no error, and Fail
  -- with that error's message, permanence and delay if it was one. A panic is an error here, and what
  -- others do to the database meanwhile is not counted.
  pub attempt-IsProper :
      (events : List (Event (S × List Statement))) (ended : Option Err) (s : S)
      (r : Option Err × (S × List Statement))
      → All IsSilent events
      → run_attempt worker noted job events ended (s, []) ≡ some r
      → (h : Option Err) × (handler_result events ≡ some h)
        × All (IsProper worker noted job h) r.1.1
  unfolding run_attempt start
  attempt-IsProper events ended s r silent same =
      let a = play worker noted job events (start ended (s, [])) in
      let (h, has) = result-reported a.main a.beat a r same in
      (
        h,
        sym (play-reported worker noted job events (start ended (s, []))) ∙ has,
        result_sent a.main a.beat a h r has same
            (play_sent h events (start ended (s, [])) silent tt),
      )
