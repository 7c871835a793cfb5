-- ===== src/Worker/Working.antt =====
-- A round of the worker on a database that serves it undisturbed: the claim, the handler and the
-- acknowledgement, as one change of the table.
use gotth_jobs.Worker.Run.{after, wait_context, claimed, goes_on, turn, Round, attempted, Waited}
use gotth_jobs.Worker.Settled.{acknowledge-settled, settled}
use gotth_jobs.Engine.Legal.{claim_legal}
use gotth_jobs.Values.Identifiers.{AreBytes, new_opaque_id, lease_token_size, new_opaque_id_valid}
use gotth_jobs.Table.Statements.Claiming.{buried, claim_sql-one, candidate-queue}
use gotth_jobs.Table.Decoded.Fits.{job_of-IsStored}
use gotth_jobs.Rows.Stored.{IsStored-validate}
use gotth_jobs.Lifecycle.Refinement.Claiming.{
  handed, dispense, dispensed, claim-Performs, one_candidate,
}
use gotth_jobs.Worker.Claimed.{claim_request-valid}
use gotth_jobs.Worker.Repository.{postgresql_store}
use gotth_jobs.Lifecycle.{microseconds, claim}
use gotth_jobs.Table.Decoded.{job_of, IsReadable}
use gotth_jobs.Worker.Reconciliation.{store_of}
use gotth_jobs.Table.Lookup.{put, find_row-in}
use gotth_jobs.Bytes.{Bytes, bytes_eq, bytes_eq_self}
use gotth_jobs.Engine.Serving.{Serves}
use gotth_jobs.Table.{Row, Table, IsConsistent, satisfies_checks}
use gotth_jobs.Errors.{Err, is, sentinel, no_job}
use gotth_jobs.Types.{Job, ClaimRequest, zero_job}
use gotth_jobs.Postgres.{Database}
use gotth_jobs.Worker.{Worker, Store, validate_worker, validate_claimed, claim_request}
use gotth_jobs.Table.Statements.{Session, holds_lease, at_where, plus_micros, at_lease}
use gotth_jobs.Table.Statements.Claim.{claim_row, candidate_rows}
use gotth_jobs.Worker.Attempt.{
  Handled, Event, handler_ends, main_goes_on, sees_stop, acknowledge, run_attempt, play, step,
  start, handler_step, main_step, stop_step, result, joined, call_handler, done_step, beat_step,
  sees_done, beat_goes_on, heartbeat_failed, finished_cause,
}
use gotth_jobs.Common.{
  ◌≡◌, ◌<◌, refl, ap, ◌∙◌, true, Option, none, some, List, [], ◌∷◌, All, arith, length, ◌==◌, In,
  All-at, Bool, false,
}

-- The handler ends before the first tick. The heartbeat goroutine then finds that it is to stop, and
-- perhaps that its context is canceled: its `select` takes either.
abbrev pub last_beat : {S : Type 0} → Bool → List (Event S)
last_beat true = sees_stop ∷ []
last_beat false = sees_done ∷ beat_goes_on ∷ []

abbrev pub swift : {S : Type 0} → Handled → Bool → List (Event S)
swift handled stops = handler_ends handled ∷ main_goes_on ∷ main_goes_on ∷ last_beat stops

-- The row that a claim writes, and the table after the claim.
abbrev pub taken : Session → ClaimRequest → Bytes → Row → Row
taken session request bytes = handed session request (new_opaque_id bytes none).0

abbrev pub claimed_table : Session → ClaimRequest → Bytes → Row → Table → Table
claimed_table session request bytes r t =
    put (taken session request bytes r) (buried session request.queue t)

module _ {S : Type 0} (worker : Worker S) (store : Store S) (job : Job) where
  claimed-swift :
      (wait : Waited) (handled : Handled) (stops : Bool) (r : (Job × Option Err) × S) (s' : S)
      → r.0 ≡ (job, none)
      → validate_claimed job worker.queue worker.worker_id ≡ none
      → acknowledge worker store job (call_handler handled) r.1 ≡ (none, s')
      → claimed worker store (record { head = none; wait = wait; events = swift handled stops }) r
        ≡ goes_on s'
  unfolding claimed attempted run_attempt play step start handler_step main_step stop_step result
      joined done_step beat_step heartbeat_failed finished_cause is
  claimed-swift wait handled true ((a, none), s) s' e v k =
      rw (ap (λ (y : Job × Option Err). y.0) e, v, k) refl
  claimed-swift wait handled false ((a, none), s) s' e v k =
      rw (ap (λ (y : Job × Option Err). y.0) e, v, k) refl
  claimed-swift wait handled stops ((a, some err), s) s' e v k = cc

claimed-idle :
    {S : Type 0} (worker : Worker S) (store : Store S) (round : Round S)
    (r : (Job × Option Err) × S)
    → r.0 ≡ (zero_job, some (sentinel no_job))
    → claimed worker store round r ≡ after (wait_context round.wait) r.1
unfolding claimed is
claimed-idle worker store round (answer, s) e = rw e refl

-- What Claim hands out passes the worker's check.
handed-claimed :
    (session : Session) (request : ClaimRequest) (token : Bytes) (r : Row)
    → bytes_eq r.queue request.queue ≡ true
    → satisfies_checks (handed session request token r) ≡ true
    → IsReadable (handed session request token r)
    → validate_claimed (job_of (handed session request token r)) request.queue request.worker ≡ none
unfolding validate_claimed job_of claim_row
handed-claimed session request token r q checked readable =
    rw
      (
        q,
        bytes_eq_self request.worker,
        IsStored-validate (job_of (handed session request token r))
            (job_of-IsStored (handed session request token r) checked readable),
      )
      refl

-- Its lease lasts until the statement that acknowledges it reads the clock.
abbrev pub IsInTime : Session → ClaimRequest → Row → Type 0
IsInTime session request r =
    session.clock at_where r.id
    < plus_micros (session.clock at_lease r.id) (microseconds request.lease_duration)

handed-held :
    (session : Session) (request : ClaimRequest) (token : Bytes) (r : Row)
    → IsInTime session request r
    → holds_lease session r.id token (handed session request token r) ≡ true
unfolding holds_lease claim_row
handed-held session request token r live =
    rw (bytes_eq_self r.id, bytes_eq_self token) (ground arith)

module _ {S : Type 0} (worker : Worker S) (database : Database S) (session : Session)
    (refused : Err) (serves : Serves database session refused) (entropy : S → Bytes × Option Err)
    (valid : validate_worker worker ≡ none) where
  module _ (s : S) (bytes : Bytes) (r : Row) (l : List Row) (are : AreBytes bytes)
      (sized : (length bytes == lease_token_size) ≡ true) (c : IsConsistent (serves.committed s))
      (first : candidate_rows session worker.queue (serves.committed s) ≡ r ∷ l)
      (readable : All
        (λ y. IsReadable (taken session (claim_request worker) bytes y))
        (serves.committed s)) where
    -- Claim's call, as the store makes it.
    abbrev call : (Job × Option Err) × S
    call =
        claim (some (record { database = some database })) (some (record { err = none }))
          (claim_request worker) bytes none s

    call-handed :
        (call.0 ≡ (job_of (taken session (claim_request worker) bytes r), none))
        × (serves.committed call.1
            ≡ claimed_table session (claim_request worker) bytes r (serves.committed s))
    unfolding dispense dispensed claim_request
    call-handed = rw first at (
        claim-Performs database session refused serves (record { err = none })
          (claim_request worker) bytes s (claim_request-valid worker valid) are sized c readable)

    table-kept :
        (bytes_eq r.queue worker.queue ≡ true)
        × In r (serves.committed s)
        × (satisfies_checks (taken session (claim_request worker) bytes r) ≡ true)
        × In
            (taken session (claim_request worker) bytes r)
            (claimed_table session (claim_request worker) bytes r (serves.committed s))
        × IsConsistent (claimed_table session (claim_request worker) bytes r (serves.committed s))
    unfolding claim_request
    table-kept =
        let only =
          first
          ∙ ap (λ (rest : List Row). r ∷ rest)
              (one_candidate session worker.queue (serves.committed s) r l first) in
        let (_, inside, checked, here, consistent) =
          claim_sql-one session worker.queue (new_opaque_id bytes none).0 worker.worker_id
            (microseconds worker.lease_duration) (serves.committed s) c
            ((new_opaque_id_valid bytes are).1 ∙ sized)
            (claim_legal (claim_request worker) (claim_request-valid worker valid)) r only in
        (
          candidate-queue session worker.queue (serves.committed s) r only,
          inside,
          checked,
          here,
          consistent,
        )

    -- A validated worker at the head of its loop, on a database that serves it undisturbed, with a
    -- consistent table and 32 bytes of entropy: if a job may be claimed, and its handler ends before the
    -- first heartbeat and before its lease runs out, by a panic or with any error or none, the round
    -- does the job's whole work. The first 100 unlocked jobs whose last attempt has expired are dead, the
    -- first candidate is claimed, its row is then succeeded, pending after the delay or dead as the handler's result
    -- says, and the worker goes on to its next round. The rows that the two statements may write must
    -- be readable.
    pub turn_settles :
        (wait : Waited) (handled : Handled) (stops : Bool)
        → entropy s ≡ (bytes, none)
        → IsInTime session (claim_request worker) r
        → All
            (λ y. IsReadable (
              settled session worker
                (store_of database entropy)
                (job_of (taken session (claim_request worker) bytes r))
                (call_handler handled)
                y))
            (claimed_table session (claim_request worker) bytes r (serves.committed s))
        → (s' : S) × (turn worker
              (store_of database entropy)
              (record { head = none; wait = wait; events = swift handled stops })
              none
              s
            ≡ goes_on s')
          × (serves.committed s'
              ≡ put
                  (settled session worker
                    (store_of database entropy)
                    (job_of (taken session (claim_request worker) bytes r))
                    (call_handler handled)
                    (taken session (claim_request worker) bytes r))
                  (claimed_table session (claim_request worker) bytes r (serves.committed s)))
    unfolding turn postgresql_store
    turn_settles wait handled stops drawn live settling =
        let job = job_of (taken session (claim_request worker) bytes r) in
        let (answer, table) = call-handed in
        let (queued, inside, checked, here, consistent) = table-kept in
        let passes : validate_claimed job worker.queue worker.worker_id ≡ none =
          unfold claim_request in
          handed-claimed session (claim_request worker) (new_opaque_id bytes none).0 r queued
            checked
            (All-at (λ y. IsReadable (taken session (claim_request worker) bytes y))
              (serves.committed s) r readable inside) in
        let (s', done, left) =
          acknowledge-settled worker database session refused serves entropy valid job passes
            (taken session (claim_request worker) bytes r) call.1 (rw table consistent)
            (rw table (
              unfold job_of claim_row in
              find_row-in _ (taken session (claim_request worker) bytes r) consistent.unique here))
            (unfold job_of claim_row in
              handed-held session (claim_request worker) (new_opaque_id bytes none).0 r live)
            (call_handler handled) (rw table settling) in
        (
          s',
          rw drawn (
              claimed-swift worker (store_of database entropy) job wait handled stops call s' answer
                passes done),
          rw table at left,
        )

  -- A validated worker at the head of its loop, on a database that serves it undisturbed, with a
  -- consistent table each of whose rows would be readable once claimed, and 32 bytes of entropy: with no
  -- job to claim the round waits. The first 100 unlocked jobs whose last attempt has expired are dead,
  -- nothing else changes, and Run goes on when the timer fires, or returns the error of its context.
  pub turn_waits :
      (s : S) (bytes : Bytes) (round : Round S)
      → AreBytes bytes
      → (length bytes == lease_token_size) ≡ true
      → IsConsistent (serves.committed s)
      → All (λ y. IsReadable (taken session (claim_request worker) bytes y)) (serves.committed s)
      → candidate_rows session worker.queue (serves.committed s) ≡ []
      → entropy s ≡ (bytes, none)
      → (s' : S) × (turn worker (store_of database entropy) round none s
          ≡ after (wait_context round.wait) s')
        × (serves.committed s' ≡ buried session worker.queue (serves.committed s))
  unfolding turn postgresql_store dispense dispensed claim_request
  turn_waits s bytes round are sized c readable empty drawn =
      let (answer, table) = rw empty at (
        claim-Performs database session refused serves (record { err = none })
          (claim_request worker) bytes s (claim_request-valid worker valid) are sized c readable) in
      (_, rw drawn (claimed-idle worker (store_of database entropy) round _ answer), table)
