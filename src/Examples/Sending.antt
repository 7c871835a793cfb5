-- ===== src/Examples/Sending.antt =====
-- An attempt on a database whose table has no jobs any more, which still grants heartbeats.
use gotth_jobs.Common.{◌≡◌, ◌⊎◌, refl, true, some, none, List, [], ◌∷◌, Option, All, pos}
use gotth_jobs.Errors.{
  sentinel, no_rows, failed, ok, tx_closed, Err, plain_error, wrapped, not_found,
}
use gotth_jobs.Bytes.{Bytes}
use gotth_jobs.Postgres.{Database, complete_statement}
use gotth_jobs.Engine.{Statement, job_statement, heartbeat_statement}
use gotth_jobs.Worker.{Worker}
use gotth_jobs.Worker.Reconciliation.{store_of}
use gotth_jobs.Calls.Sent.{recording}
use gotth_jobs.Worker.Attempt.{
  Event, run_attempt, ticks, beat_goes_on, handler_ends, main_goes_on, sees_stop, returned,
}
use gotth_jobs.Worker.Reported.{handler_result}
use gotth_jobs.Worker.Sent.{IsProper, noted, attempt-IsProper}
use gotth_jobs.Examples.{mail, worker}
use gotth_jobs.Examples.Worker.{claimed_job}

abbrev emptied : Database (Unit {0})
emptied = record {
  begin_tx = λ s. (none, s);
  commit = λ s. (none, s);
  rollback = λ s. (some (sentinel tx_closed), s);
  query_job = λ q s. (failed (sentinel no_rows), s);
  query_idempotent_job = λ queue key s. (failed (sentinel no_rows), s);
  query_heartbeat = λ id token micros s. (none, s);
  query_lease_state = λ id s. (failed (sentinel no_rows), s);
  query_isolation = λ s. (ok [], s);
  query_counts = λ queue s. (failed (sentinel no_rows), s);
  query_dead = λ queue time id limit s. (failed (sentinel no_rows), s);
}

abbrev no_entropy : (Unit {0}) × List Statement → Bytes × Option Err
no_entropy x = ([], some (plain_error "no entropy"))

abbrev mail_worker : Worker (Unit {0} × List Statement)
mail_worker = record {
  store = some (store_of (recording emptied) no_entropy);
  queue = mail;
  worker_id = worker;
  lease_duration = pos 60000000000;
  heartbeat_interval = pos 20000000000;
  poll_interval = pos 1000000000;
  retry_policy = record { initial = pos 1000000000; maximum = pos 60000000000 };
  handler = true;
}

-- One heartbeat, and then a handler without an error, whose completion is refused.
abbrev events : List (Event (Unit {0} × List Statement))
events =
    ticks
    ∷ beat_goes_on
    ∷ handler_ends (returned none)
    ∷ main_goes_on
    ∷ main_goes_on
    ∷ sees_stop
    ∷ []

abbrev refused : Option Err × (Unit {0} × List Statement)
refused = (
  some (wrapped "complete worker job" (sentinel not_found)),
  (
    tt,
    job_statement (complete_statement claimed_job.lease.job_id claimed_job.lease.token)
        ∷ heartbeat_statement claimed_job.lease.job_id claimed_job.lease.token (pos 60000000)
        ∷ [],
  ),
)

is_refused :
    run_attempt mail_worker
      (noted mail_worker emptied no_entropy claimed_job)
      claimed_job
      events
      none
      (tt, [])
    ≡ some refused
unfolding run_attempt recording gotth_jobs.Lifecycle.complete gotth_jobs.Lifecycle.heartbeat
    gotth_jobs.Worker.Repository.postgresql_store gotth_jobs.Values.Identifiers.valid_job_id
    gotth_jobs.Common.every gotth_jobs.Bytes.is_hex_digit
    gotth_jobs.Values.Identifiers.valid_lease_token gotth_jobs.Values.validate_lease_duration
is_refused = refl

attempt-IsProper_example :
    (h : Option Err) × (handler_result events ≡ some h)
    × All
        (IsProper mail_worker (noted mail_worker emptied no_entropy claimed_job) claimed_job h)
        refused.1.1
attempt-IsProper_example =
    attempt-IsProper mail_worker emptied no_entropy claimed_job events none tt refused
      (tt, (tt, (tt, (tt, (tt, (tt, tt)))))) is_refused
