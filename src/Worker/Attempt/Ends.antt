-- ===== src/Worker/Attempt/Ends.antt =====
-- After the handler's end nothing holds an attempt up.
use gotth_jobs.Common.{◌≢◌, none, List, [], ◌∷◌, arith}
use gotth_jobs.Types.{Job}
use gotth_jobs.Worker.{Worker, Store}
use gotth_jobs.Worker.Attempt.{
  Main, handling, Attempt, Event, main_goes_on, sees_stop, beat_goes_on, main_step, stop_step,
  answered, beat_step, step, play, result,
}

-- The steps that are left at most: the two of the main goroutine, and those of the heartbeat's.
abbrev pub last_steps : {S : Type 0} → List (Event S)
last_steps = main_goes_on ∷ main_goes_on ∷ beat_goes_on ∷ sees_stop ∷ beat_goes_on ∷ []

abbrev pub IsBack : Main → Type 0
IsBack handling = ⊥
IsBack other = Unit {0}

module _ {S : Type 0} (worker : Worker S) (store : Store S) (job : Job) where
  -- From every state in which the handler has ended, however far the two goroutines are, these steps
  -- end the attempt: nobody waits for the other forever.
  pub attempt_ends :
      (a : Attempt S)
      → IsBack a.main
      → result worker store job
          (play worker store job last_steps a).main
          (play worker store job last_steps a).beat
          (play worker store job last_steps a)
        ≢ none
  unfolding play result step main_step stop_step beat_step answered
  attempt_ends a b = ground arith
