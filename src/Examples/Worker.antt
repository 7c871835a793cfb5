-- ===== src/Examples/Worker.antt =====
-- The theorems about the worker at concrete jobs, errors and schedules.
use gotth_jobs.Common.{
  ℕ, ℤ, pos, ◌≡◌, ◌≢◌, refl, ◌≤◌, Bool, true, false, Option, none, some, List, [], ◌∷◌, arith,
  replicate, length, ◌≤ℤ◌, ◌+◌,
}
use gotth_jobs.Bytes.{Bytes, codes, bytes_eq, contains_nul}
use gotth_jobs.Types.{Job, Time, running, zero_time}
use gotth_jobs.Errors.{Err, message, sentinel, context_canceled, error_text, is}
use gotth_jobs.Values.{validate_failure}
use gotth_jobs.Values.Identifiers.{valid_lease_token}
use gotth_jobs.Values.Utf8.{valid_utf8}
use gotth_jobs.Worker.{Worker, Store, validate_worker, validate_claimed}
use gotth_jobs.Worker.Message.{bounded_failure}
use gotth_jobs.Worker.Message.Valid.{IsSendable, bounded_failure-IsSendable, bounded_failure_same}
use gotth_jobs.Worker.Attempt.{
  Event, handler_ends, main_goes_on, ticks, beat_goes_on, returned, back, calling, Attempt, start,
  play, run_attempt, acknowledge, result, failure_of, retry_delay,
}
use gotth_jobs.Worker.Attempt.Race.{IsPatient, attempt_acknowledges, IsCancellation}
use gotth_jobs.Worker.Attempt.Ends.{last_steps, attempt_ends}
use gotth_jobs.Worker.Claimed.{validate_claimed-running, failure_of-valid}
use gotth_jobs.Examples.{id_b, token_b, mail, worker}

-- An invalid byte, and a NUL.
bounded_failure-IsSendable_example : IsSendable (bounded_failure (message (0x61 ∷ 0xff ∷ 0 ∷ [])))
bounded_failure-IsSendable_example = bounded_failure-IsSendable (message (0x61 ∷ 0xff ∷ 0 ∷ []))

bounded_failure_same_example : bounded_failure (message (codes "timeout")) ≡ codes "timeout"
unfolding error_text contains_nul valid_utf8
bounded_failure_same_example =
    bounded_failure_same (message (codes "timeout")) (omega arith, refl, refl)

abbrev pub noon : Time
noon = record { seconds = pos 63871200000; nanosecond = 0; in_utc = true }

abbrev pub claimed_job : Job
claimed_job = record {
  id = id_b;
  queue = mail;
  kind = codes "send";
  payload = some [];
  idempotency_key = [];
  state = running;
  attempts = pos 1;
  max_attempts = pos 3;
  available_at = noon;
  created_at = noon;
  updated_at = noon;
  lease = record { job_id = id_b; token = token_b };
  lease_owner = worker;
  lease_until = noon;
  last_error = [];
  finished_at = zero_time;
}

-- A store that answers nothing but heartbeats, and those with the end of their context.
abbrev beats : Option Err → Option Err
beats none = none
beats (some err) = some (sentinel context_canceled)

abbrev quiet : Store ℕ
quiet = record {
  claim = λ ctx request s. ((claimed_job, none), s);
  heartbeat = λ ctx lease duration s. (beats ctx.err, s + 1);
  complete = λ ctx lease s. ((claimed_job, none), s);
  fail = λ ctx lease failure s. ((claimed_job, none), s);
}

abbrev mail_worker : Worker ℕ
mail_worker = record {
  store = some quiet;
  queue = mail;
  worker_id = worker;
  lease_duration = pos 60000000000;
  heartbeat_interval = pos 20000000000;
  poll_interval = pos 1000000000;
  retry_policy = record { initial = pos 1000000000; maximum = pos 60000000000 };
  handler = true;
}

-- The handler ends while a heartbeat is under way, which then sees its context canceled.
abbrev overtaken : List (Event ℕ)
overtaken =
    ticks
    ∷ handler_ends (returned none)
    ∷ main_goes_on
    ∷ main_goes_on
    ∷ beat_goes_on
    ∷ beat_goes_on
    ∷ []

beats-IsCancellation :
    (o : Option Err) (err : Err) → beats o ≡ some err → (o ≢ none) × IsCancellation err
unfolding is
beats-IsCancellation o err h = ground arith

quiet-IsPatient : IsPatient mail_worker quiet claimed_job
quiet-IsPatient ctx s err h = beats-IsCancellation ctx.err err h

attempt_acknowledges_example :
    run_attempt mail_worker quiet claimed_job overtaken none 0
    ≡ some (acknowledge mail_worker quiet claimed_job none 1)
unfolding play start
attempt_acknowledges_example =
    attempt_acknowledges mail_worker quiet claimed_job overtaken 0 none
      (some (sentinel context_canceled)) quiet-IsPatient refl refl refl

-- The handler is back while a heartbeat is under way.
abbrev late : Attempt ℕ
late = record { state = 0; ended = none; canceled = none; main = back none; beat = calling }

attempt_ends_example :
    result mail_worker quiet claimed_job
      (play mail_worker quiet claimed_job last_steps late).main
      (play mail_worker quiet claimed_job last_steps late).beat
      (play mail_worker quiet claimed_job last_steps late)
    ≢ none
attempt_ends_example = attempt_ends mail_worker quiet claimed_job late tt

mail_worker_valid : validate_worker mail_worker ≡ none
unfolding validate_worker gotth_jobs.Values.validate_claim gotth_jobs.Values.validate_name
    gotth_jobs.Common.every gotth_jobs.Values.is_name_byte contains_nul valid_utf8
    gotth_jobs.Values.validate_lease_duration gotth_jobs.Retry.delay
mail_worker_valid = refl

pub claimed_valid : validate_claimed claimed_job mail worker ≡ none
unfolding validate_claimed bytes_eq gotth_jobs.Rows.validate_stored_job
    gotth_jobs.Values.Identifiers.valid_job_id gotth_jobs.Common.every gotth_jobs.Bytes.is_hex_digit
    gotth_jobs.Values.validate_name gotth_jobs.Values.is_name_byte
    gotth_jobs.Values.is_postgresql_timestamp valid_utf8 contains_nul valid_lease_token
claimed_valid = refl

validate_claimed-running_example :
    (running ≡ running)
    × (mail ≡ mail)
    × (worker ≡ worker)
    × (id_b ≡ id_b)
    × (valid_lease_token token_b ≡ true)
    × (pos 1 ≤ℤ pos 1)
    × (pos 1 ≤ℤ pos 3)
validate_claimed-running_example =
    validate_claimed-running claimed_job mail worker claimed_valid (omega arith)

failure_of-valid_example :
    (n : ℕ) × (retry_delay mail_worker quiet claimed_job (message (codes "timeout"))
      ≡ (pos n, none))
    × (validate_failure
          (failure_of mail_worker quiet claimed_job (message (codes "timeout")) (pos n))
        ≡ none)
failure_of-valid_example =
    failure_of-valid mail_worker quiet claimed_job (message (codes "timeout")) mail_worker_valid
      claimed_valid
