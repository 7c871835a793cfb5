-- ===== src/Examples/Reconciling.antt =====
-- A worker whose database stores the commits but reports them as failed.
use gotth_jobs.Common.{ℕ, ◌+◌, pos, true, none, some, List, [], ◌∷◌, replicate, Option}
use gotth_jobs.Bytes.{Bytes}
use gotth_jobs.Errors.{Err, plain_error}
use gotth_jobs.Types.{Job}
use gotth_jobs.Lifecycle.{claim_one, mutate_lease}
use gotth_jobs.Worker.{Worker, claim_request}
use gotth_jobs.Worker.Run.{Round, timer_fires}
use gotth_jobs.Worker.Reconciliation.{store_of, acknowledgement}
use gotth_jobs.Values.Identifiers.{new_opaque_id}
use gotth_jobs.Postgres.{JobStatement}
use gotth_jobs.Examples.Worker.{claimed_job as held}
use gotth_jobs.Examples.{id_b, mail, worker, two_jobs}
use gotth_jobs.Examples.Calls.{idle, cut_off}
use gotth_jobs.Examples.Server.{Server}

abbrev zeros : Server → Bytes × Option Err
zeros s = (replicate 32 0, none)

abbrev mail_worker : Worker Server
mail_worker = record {
  store = some (store_of cut_off zeros);
  queue = mail;
  worker_id = worker;
  lease_duration = pos 60000000000;
  heartbeat_interval = pos 20000000000;
  poll_interval = pos 1000000000;
  retry_policy = record { initial = pos 1000000000; maximum = pos 60000000000 };
  handler = true;
}

abbrev one_round : Round Server
one_round = record { head = none; wait = timer_fires; events = [] }

abbrev working : Server
working = record idle { working = some two_jobs }

abbrev claimed_at : Server
claimed_at =
    (claim_one cut_off (claim_request mail_worker) (new_opaque_id (replicate 32 0) none).0
      working).1

abbrev claimed_job : Job
claimed_job =
    (claim_one cut_off (claim_request mail_worker) (new_opaque_id (replicate 32 0) none).0
      working).0.0.job

abbrev timeout : Option Err
timeout = some (plain_error "timeout")

abbrev acknowledged_by : JobStatement
acknowledged_by = acknowledgement mail_worker (store_of cut_off zeros) held timeout

abbrev retried_at : Server
retried_at = (mutate_lease cut_off id_b acknowledged_by working).1

abbrev retried : Job
retried = (mutate_lease cut_off id_b acknowledged_by working).0.0
