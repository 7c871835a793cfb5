-- ===== src/Examples/Operators.antt =====
-- The refinements of Cancel and Redrive on a concrete database with a fixed clock.
use gotth_jobs.Common.{◌≡◌, refl, none, some, [], ◌∷◌, All, every}
use gotth_jobs.Types.{dead}
use gotth_jobs.Rows.{bad_text}
use gotth_jobs.Values.Identifiers.{validate_job_id}
use gotth_jobs.Table.{Row, IsConsistent, satisfies_checks}
use gotth_jobs.Table.Decoded.{IsReadable}
use gotth_jobs.Table.Statements.{cancel_row, redrive_row}
use gotth_jobs.Lifecycle.Refinement.Transaction.{Performs}
use gotth_jobs.Operations.{cancel, redrive}
use gotth_jobs.Operations.Refinement.{cancellation, redrival}
use gotth_jobs.Operations.Refinement.Cancel.{cancel-Performs}
use gotth_jobs.Operations.Refinement.Redrive.{redrive-Performs}
use gotth_jobs.Examples.{at, running_job, pending_job, id_b}
use gotth_jobs.Examples.Calls.{idle}
use gotth_jobs.Examples.Decoding.{running-IsReadable}
use gotth_jobs.Examples.Server.{Server}
use gotth_jobs.Examples.Serving.{still, refusal, still-Serves, one_job, one_job-IsConsistent}

pub id_b_valid : validate_job_id id_b ≡ none
unfolding validate_job_id gotth_jobs.Bytes.is_hex_digit every
id_b_valid = refl

canceled-IsReadable : All (λ r. IsReadable (cancel_row (at 20) r)) (running_job ∷ [])
unfolding every bad_text gotth_jobs.Values.is_name_byte gotth_jobs.Values.is_postgresql_timestamp
    gotth_jobs.Values.is_zero gotth_jobs.Values.before gotth_jobs.Values.Utf8.valid_utf8
    gotth_jobs.Table.to_time gotth_jobs.Bytes.contains_nul cancel_row
canceled-IsReadable = (
  record {
    queue = refl;
    kind = refl;
    key = refl;
    owner = refl;
    last = refl;
    available = refl;
    created = refl;
    updated = refl;
    until = tt;
    finished = refl;
  },
  tt,
)

cancel-Performs_example :
    Performs
      (λ s. s.stored)
      (cancel (some (record { database = some still })) (some (record { err = none })) id_b one_job)
      (cancellation (at 20) id_b (running_job ∷ []))
unfolding still-Serves
cancel-Performs_example =
    cancel-Performs still (at 20) refusal still-Serves (record { err = none }) id_b one_job
      one_job-IsConsistent (running-IsReadable, tt) canceled-IsReadable id_b_valid

-- A job that has used up its budget.
abbrev dead_job : Row
dead_job = record pending_job { id = id_b; state = dead; attempts = 2; finished_at = some 15 }

abbrev dead_letter : Server
dead_letter = record idle { stored = dead_job ∷ [] }

dead_job-IsConsistent : IsConsistent (dead_job ∷ [])
unfolding satisfies_checks every gotth_jobs.Table.fixed_checks
    gotth_jobs.Values.Identifiers.valid_job_id gotth_jobs.Bytes.is_hex_digit
dead_job-IsConsistent = record { checked = refl; unique = (tt, tt) }

dead_job-IsReadable : IsReadable dead_job
unfolding every bad_text gotth_jobs.Values.is_name_byte gotth_jobs.Values.is_postgresql_timestamp
    gotth_jobs.Values.is_zero gotth_jobs.Values.before gotth_jobs.Values.Utf8.valid_utf8
    gotth_jobs.Table.to_time gotth_jobs.Bytes.contains_nul
dead_job-IsReadable = record {
  queue = refl;
  kind = refl;
  key = refl;
  owner = refl;
  last = refl;
  available = refl;
  created = refl;
  updated = refl;
  until = tt;
  finished = refl;
}

redriven-IsReadable : IsReadable (redrive_row (at 20) dead_job)
unfolding every bad_text gotth_jobs.Values.is_name_byte gotth_jobs.Values.is_postgresql_timestamp
    gotth_jobs.Values.is_zero gotth_jobs.Values.before gotth_jobs.Values.Utf8.valid_utf8
    gotth_jobs.Table.to_time gotth_jobs.Bytes.contains_nul redrive_row
redriven-IsReadable = record {
  queue = refl;
  kind = refl;
  key = refl;
  owner = refl;
  last = refl;
  available = refl;
  created = refl;
  updated = refl;
  until = tt;
  finished = tt;
}

redrive-Performs_example :
    Performs
      (λ s. s.stored)
      (redrive
        (some (record { database = some still }))
        (some (record { err = none }))
        id_b
        dead_letter)
      (redrival (at 20) id_b (dead_job ∷ []))
unfolding still-Serves
redrive-Performs_example =
    redrive-Performs still (at 20) refusal still-Serves (record { err = none }) id_b dead_letter
      dead_job-IsConsistent (dead_job-IsReadable, tt) (redriven-IsReadable, tt) id_b_valid
