-- ===== src/Worker/Attempt/Race.antt =====
-- The race between the handler's end and a heartbeat: the cancellation that ends the heartbeat of a
-- finished handler is told from a lost lease, so the attempt is acknowledged.
use gotth_jobs.Postgres.{Context}
use gotth_jobs.Types.{Job}
use gotth_jobs.Worker.{Worker, Store}
use gotth_jobs.Common.{
  ◌≡◌, Bool, true, false, Option, none, some, ◌⊎◌, arith, List, inl, ◌≢◌, inr, ◌∷◌, ap, [], refl,
}
use gotth_jobs.Errors.{
  Err, sentinel, is, handler_finished, context_canceled, commit_outcome_unknown,
}
use gotth_jobs.Worker.Attempt.{
  Handled, Main, Beat, failing, sent, Canceled, Attempt, caller_step, main_step, handler_step,
  tick_step, stop_step, done_step, run_attempt, context_err, answered, joined, finished_cause,
  beat_step, step, play, heartbeat_failed, selecting, result, Event, caller_ends, acknowledge,
  start, joining, handler_ends, meanwhile, main_goes_on, ticks, sees_stop, sees_done, beat_goes_on,
  calling,
}

abbrev HasEnded : Option Err → Type 0
HasEnded none = ⊥
HasEnded (some err) = Unit {0}

abbrev IsCanceled : Option Canceled → Type 0
IsCanceled none = ⊥
IsCanceled (some c) = Unit {0}

abbrev finished : Canceled
finished = record { err = sentinel context_canceled; cause = sentinel handler_finished }

-- An error that says no more than that the context was canceled.
abbrev pub IsCancellation : Err → Type 0
IsCancellation err = (is err context_canceled ≡ true) × (is err commit_outcome_unknown ≡ false)

-- The attempt's context is canceled only at the handler's end, unless the caller's has ended.
abbrev CancelFits : Option Canceled → Option Err → Type 0
CancelFits none ended = Unit {0}
CancelFits (some c) ended = (c ≡ finished) ⊎ HasEnded ended

abbrev BeatFits : Beat → Option Canceled → Option Err → Type 0
BeatFits (failing err) canceled ended = (IsCancellation err × IsCanceled canceled) ⊎ HasEnded ended
BeatFits (sent (some err)) canceled ended =
    (IsCancellation err × IsCanceled canceled) ⊎ HasEnded ended
BeatFits other canceled ended = Unit {0}

record Fits {S : Type 0} (a : Attempt S) : Type 0 where
  cancel : CancelFits a.canceled a.ended
  beat : BeatFits a.beat a.canceled a.ended

module _ {S : Type 0} where
  caller_step-Fits :
      (o : Option Err) (err cause : Err) (a : Attempt S)
      → a.ended ≡ o
      → Fits a
      → Fits (caller_step o err cause a)
  unfolding caller_step
  caller_step-Fits o err cause a e f = ground arith

  main_step-Fits : (m : Main) (a : Attempt S) → Fits a → Fits (main_step m a)
  unfolding main_step
  main_step-Fits m a f = ground arith

  handler_step-Fits : (m : Main) (h : Handled) (a : Attempt S) → Fits a → Fits (handler_step m h a)
  unfolding handler_step
  handler_step-Fits m h a f = ground arith

  tick_step-Fits : (b : Beat) (a : Attempt S) → Fits a → Fits (tick_step b a)
  unfolding tick_step
  tick_step-Fits b a f = ground arith

  stop_step-Fits : (b : Beat) (s : Bool) (a : Attempt S) → Fits a → Fits (stop_step b s a)
  unfolding stop_step
  stop_step-Fits b s a f = ground arith

  done_step-Fits :
      (b : Beat) (c : Option Canceled) (a : Attempt S)
      → a.canceled ≡ c
      → Fits a
      → Fits (done_step b c a)
  unfolding done_step is
  done_step-Fits b c a e f = ground arith

module _ {S : Type 0} (worker : Worker S) (store : Store S) (job : Job) where
  -- The store's Heartbeat fails only where its context is canceled, and says just that.
  abbrev pub IsPatient : Type 0
  IsPatient =
      (ctx : Context) (s : S) (err : Err)
      → (store.heartbeat ctx job.lease worker.lease_duration s).0 ≡ some err
      → (ctx.err ≢ none) × IsCancellation err

  answered-Fits :
      (r : Option Err × S) (a : Attempt S)
      → ((err : Err) → r.0 ≡ some err → IsCancellation err × IsCanceled a.canceled)
      → Fits a
      → Fits (answered r a)
  unfolding answered
  answered-Fits (none, s) a h f = record { cancel = f.cancel; beat = tt }
  answered-Fits (some err, s) a h f = record { cancel = f.cancel; beat = inl (h err refl) }

  canceled_of : (c : Option Canceled) → context_err c ≢ none → IsCanceled c
  canceled_of none h = h refl
  canceled_of (some c) h = tt

  failing-Fits :
      (err : Err) (a : Attempt S)
      → a.beat ≡ failing err
      → Fits a
      → Fits (beat_step worker store job (failing err) a)
  unfolding beat_step
  failing-Fits err a e f = ground arith

  beat_step-Fits :
      (b : Beat) (a : Attempt S)
      → IsPatient
      → a.beat ≡ b
      → Fits a
      → Fits (beat_step worker store job b a)
  unfolding beat_step
  beat_step-Fits selecting a p e f = f
  beat_step-Fits (sent r) a p e f = f
  beat_step-Fits (failing err) a p e f = failing-Fits err a e f
  beat_step-Fits calling a p e f =
      answered-Fits _ a
        (λ err refused.
          let (not_none, says) = p (record { err = context_err a.canceled }) a.state err refused in
          (says, canceled_of a.canceled not_none))
        f

  step-Fits : (e : Event S) (a : Attempt S) → IsPatient → Fits a → Fits (step worker store job e a)
  unfolding step
  step-Fits (caller_ends err cause) a p f = caller_step-Fits a.ended err cause a refl f
  step-Fits (handler_ends handled) a p f = handler_step-Fits a.main handled a f
  step-Fits main_goes_on a p f = main_step-Fits a.main a f
  step-Fits ticks a p f = tick_step-Fits a.beat a f
  step-Fits sees_stop a p f = stop_step-Fits a.beat _ a f
  step-Fits sees_done a p f = done_step-Fits a.beat a.canceled a refl f
  step-Fits beat_goes_on a p f = beat_step-Fits a.beat a p refl f
  step-Fits (meanwhile g) a p f = record { cancel = f.cancel; beat = f.beat }

  play-Fits :
      (events : List (Event S)) (a : Attempt S)
      → IsPatient
      → Fits a
      → Fits (play worker store job events a)
  unfolding play
  play-Fits [] a p f = f
  play-Fits (e ∷ rest) a p f = play-Fits rest (step worker store job e a) p (step-Fits e a p f)

  finished_known :
      (c : Option Canceled) → CancelFits c none → IsCanceled c → finished_cause c ≡ true
  unfolding finished_cause is
  finished_known none f h = absurd h
  finished_known (some c) (inl e) h = rw e refl
  finished_known (some c) (inr e) h = absurd e

  joined_ends :
      (handled r : Option Err) (a : Attempt S)
      → a.ended ≡ none
      → CancelFits a.canceled none
      → BeatFits (sent r) a.canceled none
      → joined worker store job r a.ended a.canceled handled a.state
        ≡ acknowledge worker store job handled a.state
  unfolding joined heartbeat_failed
  joined_ends handled none a e c b = rw e refl
  joined_ends handled (some err) a e c (inr b) = absurd b
  joined_ends handled (some err) a e c (inl ((says, known), canceled)) =
      rw (e, known, says, finished_known a.canceled c canceled) refl

  -- If the store's Heartbeat fails only where its context is canceled, and says just that, then at
  -- the end of an attempt in which the caller's context has not ended, in whatever order ticks,
  -- heartbeats, the handler's end and the two cancellations came, the attempt is acknowledged as the
  -- handler's result says: no cancellation by the handler's end is taken for a lost lease.
  pub attempt_acknowledges :
      (events : List (Event S)) (s : S) (handled r : Option Err)
      → IsPatient
      → (play worker store job events (start none s)).main ≡ joining handled
      → (play worker store job events (start none s)).beat ≡ sent r
      → (play worker store job events (start none s)).ended ≡ none
      → run_attempt worker store job events none s
        ≡ some (
            acknowledge worker store job handled
              (play worker store job events (start none s)).state)
  unfolding run_attempt result
  attempt_acknowledges events s handled r p m b e =
      let f =
        play-Fits events (start none s) p (unfold start in record { cancel = tt; beat = tt }) in
      rw (m, b)
        (ap some (
          joined_ends handled r (play worker store job events (start none s)) e (rw e at f.cancel)
            (rw (b, e) at f.beat)))
