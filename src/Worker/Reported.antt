-- ===== src/Worker/Reported.antt =====
-- What the main goroutine of an attempt has of its handler, and which events change the state.
use gotth_jobs.Types.{Job}
use gotth_jobs.Errors.{Err}
use gotth_jobs.Worker.{Worker, Store}
use gotth_jobs.Worker.Attempt.{
  Main, call_handler, Event, back, handler_ends, stopped, play, step, caller_step, Attempt, joining,
  main_step, handling, handler_step, tick_step, stop_step, done_step, beat_step, answered, Canceled,
  Handled, Beat,
}
use gotth_jobs.Common.{◌≡◌, refl, sym, ap, arith, Bool, Option, none, some, List, [], ◌∷◌, ◌∙◌}

-- What the handler came back with: its first end counts.
unfoldable pub handler_result : {S : Type 0} → List (Event S) → Option (Option Err)
unfolding call_handler
handler_result [] = none
handler_result (handler_ends handled ∷ rest) = some (call_handler handled)
handler_result (e ∷ rest) = handler_result rest

-- What the main goroutine has of it.
abbrev pub reported : Main → Option (Option Err)
reported handling = none
reported (back err) = some err
reported (stopped err) = some err
reported (joining err) = some err

abbrev or_else : {A : Type 0} → Option A → Option A → Option A
or_else none b = b
or_else (some a) b = some a

abbrev report : {S : Type 0} → Event S → Option (Option Err)
report (handler_ends handled) = some (call_handler handled)
report e = none

module _ {S : Type 0} (worker : Worker S) (store : Store S) (job : Job) where
  step-reported :
      (e : Event S) (a : Attempt S)
      → reported (step worker store job e a).main ≡ or_else (reported a.main) (report e)
  unfolding step caller_step main_step handler_step tick_step stop_step done_step beat_step answered
  step-reported e a = ground arith

  or_else_assoc :
      {A : Type 0} (a b c : Option A) → or_else (or_else a b) c ≡ or_else a (or_else b c)
  or_else_assoc a b c = ground arith

  or_else-none : {A : Type 0} (a : Option A) → a ≡ or_else a none
  or_else-none a = ground arith

  handler_result_first :
      (e : Event S) (rest : List (Event S))
      → handler_result (e ∷ rest) ≡ or_else (report e) (handler_result rest)
  unfolding handler_result
  handler_result_first e rest = ground arith

  pub play-reported :
      (events : List (Event S)) (a : Attempt S)
      → reported (play worker store job events a).main
        ≡ or_else (reported a.main) (handler_result events)
  unfolding play
  play-reported [] a = unfold handler_result in or_else-none (reported a.main)
  play-reported (e ∷ rest) a =
      play-reported rest (step worker store job e a)
      ∙ ap (λ o. or_else o (handler_result rest)) (step-reported e a)
      ∙ or_else_assoc (reported a.main) (report e) (handler_result rest)
      ∙ ap (or_else (reported a.main)) (sym (handler_result_first e rest))

-- Only the store's answers and other parties change the state.
module _ {S : Type 0} (a : Attempt S) where
  pub caller_state :
      (o : Option Err) (err cause : Err) → (caller_step o err cause a).state ≡ a.state
  unfolding caller_step
  caller_state none err cause = refl
  caller_state (some e) err cause = refl

  pub handler_state : (m : Main) (h : Handled) → (handler_step m h a).state ≡ a.state
  unfolding handler_step
  handler_state m h = ground arith

  pub main_state : (m : Main) → (main_step m a).state ≡ a.state
  unfolding main_step
  main_state m = ground arith

  pub tick_state : (b : Beat) → (tick_step b a).state ≡ a.state
  unfolding tick_step
  tick_state b = ground arith

  pub stop_state : (b : Beat) (stop : Bool) → (stop_step b stop a).state ≡ a.state
  unfolding stop_step
  stop_state b stop = ground arith

  pub done_state : (b : Beat) (c : Option Canceled) → (done_step b c a).state ≡ a.state
  unfolding done_step
  done_state b c = ground arith

  pub answered_state : (r : Option Err × S) → (answered r a).state ≡ r.1
  unfolding answered
  answered_state (none, s) = refl
  answered_state (some err, s) = refl
