-- ===== src/Examples/Working.antt =====
-- A round of a worker whose handler panics, on the database whose clock stands at 20.
use gotth_jobs.Common.{
  every, ℕ, pos, ◌≡◌, refl, none, some, [], ◌∷◌, All, true, replicate, arith, Option, false,
}
use gotth_jobs.Bytes.{Bytes, codes}
use gotth_jobs.Worker.{claim_request, Worker, validate_worker}
use gotth_jobs.Worker.Attempt.{panicked, call_handler}
use gotth_jobs.Worker.Run.{turn, goes_on, timer_fires}
use gotth_jobs.Worker.Reconciliation.{store_of}
use gotth_jobs.Worker.Working.{swift, taken, claimed_table, turn_settles, turn_waits}
use gotth_jobs.Worker.Settled.{settled}
use gotth_jobs.Rows.{bad_text}
use gotth_jobs.Table.{Row, Table, IsConsistent}
use gotth_jobs.Table.Statements.Claiming.{buried}
use gotth_jobs.Table.Decoded.{IsReadable, job_of}
use gotth_jobs.Table.Lookup.{put}
use gotth_jobs.Errors.{Err}
use gotth_jobs.Examples.{at, mail, worker, pending_job}
use gotth_jobs.Examples.Calls.{idle}
use gotth_jobs.Examples.Server.{Server}
use gotth_jobs.Examples.Leasing.{waiting, pending_job-IsConsistent}
use gotth_jobs.Examples.Serving.{still, refusal, still-Serves}

abbrev seed : Bytes
seed = replicate 32 1

abbrev seeds : Server → Bytes × Option Err
seeds s = (seed, none)

abbrev mail_worker : Worker Server
mail_worker = record {
  store = some (store_of still seeds);
  queue = mail;
  worker_id = worker;
  lease_duration = pos 60000000000;
  heartbeat_interval = pos 20000000000;
  poll_interval = pos 1000000000;
  retry_policy = record { initial = pos 1000000000; maximum = pos 60000000000 };
  handler = true;
}

mail_worker_valid : validate_worker mail_worker ≡ none
unfolding validate_worker gotth_jobs.Values.validate_claim gotth_jobs.Values.validate_name
    gotth_jobs.Common.every gotth_jobs.Values.is_name_byte gotth_jobs.Bytes.contains_nul
    gotth_jobs.Values.Utf8.valid_utf8 gotth_jobs.Values.validate_lease_duration
    gotth_jobs.Retry.delay
mail_worker_valid = refl

-- The row that is claimed, and its row after the failure.
abbrev held : Row
held = taken (at 20) (claim_request mail_worker) seed pending_job

abbrev after_panic : Row → Row
after_panic =
    settled (at 20) mail_worker (store_of still seeds) (job_of held) (call_handler panicked)

abbrev table_held : Table
table_held = claimed_table (at 20) (claim_request mail_worker) seed pending_job (pending_job ∷ [])

held-IsReadable :
    All (λ r. IsReadable (taken (at 20) (claim_request mail_worker) seed r)) (pending_job ∷ [])
unfolding every bad_text gotth_jobs.Values.is_name_byte gotth_jobs.Values.is_postgresql_timestamp
    gotth_jobs.Values.is_zero gotth_jobs.Values.before gotth_jobs.Values.Utf8.valid_utf8
    gotth_jobs.Table.to_time gotth_jobs.Bytes.contains_nul
    gotth_jobs.Table.Statements.Claim.claim_row claim_request
held-IsReadable = (
  record {
    queue = refl;
    kind = refl;
    key = refl;
    owner = refl;
    last = refl;
    available = refl;
    created = refl;
    updated = refl;
    until = refl;
    finished = tt;
  },
  tt,
)

settled-IsReadable : All (λ r. IsReadable (after_panic r)) table_held
unfolding every bad_text gotth_jobs.Values.is_name_byte gotth_jobs.Values.is_postgresql_timestamp
    gotth_jobs.Values.is_zero gotth_jobs.Values.before gotth_jobs.Values.Utf8.valid_utf8
    gotth_jobs.Table.to_time gotth_jobs.Bytes.contains_nul
    gotth_jobs.Table.Statements.Claim.claim_row claim_request gotth_jobs.Bytes.bytes_eq settled
    gotth_jobs.Table.Statements.fail_row put gotth_jobs.Table.Statements.Claiming.buried
    call_handler gotth_jobs.Worker.Message.bounded_failure gotth_jobs.Errors.error_text
    gotth_jobs.Errors.is_permanent gotth_jobs.Worker.Attempt.retry_delay job_of
    gotth_jobs.Retry.delay_loop
settled-IsReadable = (
  record {
    queue = refl;
    kind = refl;
    key = refl;
    owner = refl;
    last = refl;
    available = refl;
    created = refl;
    updated = refl;
    until = tt;
    finished = tt;
  },
  tt,
)

turn_settles_example :
    (s' : Server) × (turn mail_worker
        (store_of still seeds)
        (record { head = none; wait = timer_fires; events = swift panicked false })
        none
        waiting
      ≡ goes_on s')
    × (s'.stored ≡ put (after_panic held) table_held)
unfolding still-Serves gotth_jobs.Bytes.bytes_eq claim_request
turn_settles_example =
    turn_settles mail_worker still (at 20) refusal still-Serves seeds mail_worker_valid waiting seed
      pending_job [] (omega arith) refl pending_job-IsConsistent refl held-IsReadable timer_fires
      panicked false refl (omega arith) settled-IsReadable

-- The job waits in another queue.
abbrev elsewhere : Server
elsewhere = record idle { stored = record pending_job { queue = codes "news" } ∷ [] }

elsewhere-IsConsistent : IsConsistent elsewhere.stored
unfolding every gotth_jobs.Table.satisfies_checks gotth_jobs.Table.fixed_checks
    gotth_jobs.Values.Identifiers.valid_job_id gotth_jobs.Bytes.is_hex_digit
elsewhere-IsConsistent = record { checked = refl; unique = (tt, tt) }

elsewhere-IsReadable :
    All (λ r. IsReadable (taken (at 20) (claim_request mail_worker) seed r)) elsewhere.stored
unfolding every bad_text gotth_jobs.Values.is_name_byte gotth_jobs.Values.is_postgresql_timestamp
    gotth_jobs.Values.is_zero gotth_jobs.Values.before gotth_jobs.Values.Utf8.valid_utf8
    gotth_jobs.Table.to_time gotth_jobs.Bytes.contains_nul
    gotth_jobs.Table.Statements.Claim.claim_row claim_request
elsewhere-IsReadable = (
  record {
    queue = refl;
    kind = refl;
    key = refl;
    owner = refl;
    last = refl;
    available = refl;
    created = refl;
    updated = refl;
    until = refl;
    finished = tt;
  },
  tt,
)

turn_waits_example :
    (s' : Server) × (turn mail_worker
        (store_of still seeds)
        (record { head = none; wait = timer_fires; events = [] })
        none
        elsewhere
      ≡ goes_on s')
    × (s'.stored ≡ buried (at 20) mail elsewhere.stored)
unfolding still-Serves gotth_jobs.Bytes.bytes_eq claim_request gotth_jobs.Worker.Run.wait_context
turn_waits_example =
    turn_waits mail_worker still (at 20) refusal still-Serves seeds mail_worker_valid elsewhere seed
      (record { head = none; wait = timer_fires; events = [] }) (omega arith) refl
      elsewhere-IsConsistent elsewhere-IsReadable refl refl
