-- ===== src/Examples/Serving.antt =====
-- The refinement of Complete and Fail on a concrete database with a fixed clock.
use gotth_jobs.Common.{select, pos, ◌≡◌, refl, true, none, some, [], ◌∷◌, All, every, List, false}
use gotth_jobs.Bytes.{Bytes, codes}
use gotth_jobs.Types.{Lease, Failure}
use gotth_jobs.Errors.{Err, plain_error}
use gotth_jobs.Rows.{bad_text}
use gotth_jobs.Table.{Row, Table, IsConsistent}
use gotth_jobs.Table.Update.{Answer, rows, constraint_violation}
use gotth_jobs.Table.Decoded.{IsReadable}
use gotth_jobs.Table.Statements.{complete_row, fail_row}
use gotth_jobs.Postgres.{Database}
use gotth_jobs.Engine.Serving.{Serves, first_row, state_column, keyed_row, beat_error, keyed_by}
use gotth_jobs.Lifecycle.{complete, fail, validate_lease, microseconds}
use gotth_jobs.Lifecycle.Refinement.{fenced}
use gotth_jobs.Lifecycle.Refinement.Transaction.{Performs}
use gotth_jobs.Lifecycle.Refinement.Fenced.{complete-Performs, fail-Performs}
use gotth_jobs.Examples.Decoding.{running_checks}
use gotth_jobs.Values.{validate_failure}
use gotth_jobs.Examples.{running_job, id_b, token_b, at}
use gotth_jobs.Examples.Server.{Server, server, answered, beaten, state_read, has_key, keyed}
use gotth_jobs.Examples.Calls.{idle}

abbrev pub still : Database Server
still = server (λ n. at 20) (λ n. true) (λ n. none)

abbrev pub refusal : Err
refusal = plain_error "constraint violation"

pub answered_same : (a : Answer) → answered a ≡ first_row refusal a
unfolding answered first_row
answered_same constraint_violation = refl
answered_same (rows []) = refl
answered_same (rows (r ∷ l)) = refl

pub beaten_same : (a : Answer) → beaten a ≡ beat_error refusal a
unfolding beaten beat_error
beaten_same constraint_violation = refl
beaten_same (rows []) = refl
beaten_same (rows (r ∷ l)) = refl

pub state_read_same : (l : List Row) → state_read l ≡ state_column l
unfolding state_read state_column
state_read_same [] = refl
state_read_same (r ∷ l) = refl

first_keyed : (l : List Row) → keyed l ≡ keyed_row l
unfolding keyed keyed_row
first_keyed [] = refl
first_keyed (r ∷ l) = refl

pub keyed_same :
    (queue key : Bytes) (t : Table)
    → keyed (select (has_key queue key) t) ≡ keyed_row (select (keyed_by queue key) t)
unfolding has_key keyed_by
keyed_same queue key t = first_keyed (select (has_key queue key) t)

unfoldable pub still-Serves : Serves still (at 20) refusal
unfolding server
still-Serves = record {
  committed = λ s. s.stored;
  copy = λ s. s.working;
  begins = λ s. (refl, refl, refl);
  answers = λ statement s t e. rw e (answered_same _, refl, refl);
  reads = λ id s t e. rw e (state_read_same _, refl, refl);
  beats = λ id token micros s t e. rw e (beaten_same _, refl, refl);
  finds = λ queue key s t e. rw e (keyed_same queue key t, refl, refl);
  commits = λ s t e. rw e (refl, refl, refl);
  rolls_back = λ s t e. rw e (refl, refl);
  stays = λ s e. refl;
}

abbrev pub one_job : Server
one_job = record idle { stored = running_job ∷ [] }

pub one_job-IsConsistent : IsConsistent (running_job ∷ [])
unfolding every
one_job-IsConsistent = record { checked = rw running_checks refl; unique = (tt, tt) }

abbrev pub lease_b : Lease
lease_b = record { job_id = id_b; token = token_b }

abbrev timed_out : Failure
timed_out = record { message = codes "timeout"; retry_after = pos 1000000; permanent = false }

pub lease_b_valid : validate_lease lease_b ≡ none
unfolding validate_lease gotth_jobs.Values.Identifiers.valid_job_id
    gotth_jobs.Values.Identifiers.valid_lease_token gotth_jobs.Bytes.is_hex_digit every
lease_b_valid = refl

completed-IsReadable : All (λ r. IsReadable (complete_row (at 20) r)) (running_job ∷ [])
unfolding every bad_text gotth_jobs.Values.is_name_byte gotth_jobs.Values.is_postgresql_timestamp
    gotth_jobs.Values.is_zero gotth_jobs.Values.before gotth_jobs.Values.Utf8.valid_utf8
    gotth_jobs.Table.to_time gotth_jobs.Bytes.contains_nul complete_row
completed-IsReadable = (
  record {
    queue = refl;
    kind = refl;
    key = refl;
    owner = refl;
    last = refl;
    available = refl;
    created = refl;
    updated = refl;
    until = tt;
    finished = refl;
  },
  tt,
)

failed-IsReadable :
    All
      (λ r.
        IsReadable
          (fail_row (at 20) timed_out.message false (microseconds timed_out.retry_after) r))
      (running_job ∷ [])
unfolding every bad_text gotth_jobs.Values.is_name_byte gotth_jobs.Values.is_postgresql_timestamp
    gotth_jobs.Values.is_zero gotth_jobs.Values.before gotth_jobs.Values.Utf8.valid_utf8
    gotth_jobs.Table.to_time gotth_jobs.Bytes.contains_nul fail_row
failed-IsReadable = (
  record {
    queue = refl;
    kind = refl;
    key = refl;
    owner = refl;
    last = refl;
    available = refl;
    created = refl;
    updated = refl;
    until = tt;
    finished = tt;
  },
  tt,
)

complete-Performs_example :
    Performs
      (λ s. s.stored)
      (complete
        (some (record { database = some still }))
        (some (record { err = none }))
        lease_b
        one_job)
      (fenced (at 20) lease_b (complete_row (at 20)) (running_job ∷ []))
unfolding still-Serves
complete-Performs_example =
    complete-Performs still (at 20) refusal still-Serves (record { err = none }) lease_b
      lease_b_valid one_job one_job-IsConsistent completed-IsReadable

timed_out_valid : validate_failure timed_out ≡ none
unfolding validate_failure gotth_jobs.Values.Utf8.valid_utf8 gotth_jobs.Bytes.contains_nul
timed_out_valid = refl

fail-Performs_example :
    Performs
      (λ s. s.stored)
      (fail
        (some (record { database = some still }))
        (some (record { err = none }))
        lease_b
        timed_out
        one_job)
      (fenced
        (at 20)
        lease_b
        (fail_row (at 20) timed_out.message false (microseconds timed_out.retry_after))
        (running_job ∷ []))
unfolding still-Serves
fail-Performs_example =
    fail-Performs still (at 20) refusal still-Serves (record { err = none }) lease_b lease_b_valid
      one_job one_job-IsConsistent timed_out timed_out_valid failed-IsReadable
