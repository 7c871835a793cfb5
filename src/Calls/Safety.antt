-- ===== src/Calls/Safety.antt =====
-- The methods send only statements whose arguments are valid, so they keep what the database keeps.
use gotth_jobs.Engine.{Statement, job_statement, heartbeat_statement}
use gotth_jobs.Calls.{
  insertion, Sends, Preserves, Call, invoke, call_enqueue, call_claim, call_heartbeat,
  call_complete, call_fail, call_get, call_counts, call_list_dead, call_cancel, call_redrive,
}
use gotth_jobs.Common.{
  inl, inr, refl, ◌≡◌, ℤ, pos, not, ◌||◌, Option, none, some, [], length, ◌==◌, ltb_ℤ,
}
use gotth_jobs.Values.Fingerprint.{request_fingerprint}
use gotth_jobs.Operations.{
  redrive, canceled_row, counts, get, redriven_row, list_dead, cancel, cancel_job, redrive_job,
  validate_cursor, cursor_time, cursor_job,
}
use gotth_jobs.Bytes.{Bytes}
use gotth_jobs.Types.{
  Lease, EnqueueRequest, ClaimRequest, Failure, zero_job, DeadCursor, Job, max_queue_bytes,
  max_dead_page,
}
use gotth_jobs.Errors.{Err, Result, ok, failed, ◌>>=◌, ◌<|>◌, check, is, no_rows, invalid_error}
use gotth_jobs.Rows.{scan_job}
use gotth_jobs.Values.{
  validate_claim, validate_failure, validate_name, validate_lease_duration, prepare_enqueue,
}
use gotth_jobs.Values.Identifiers.{valid_lease_token, new_opaque_id, validate_job_id}
use gotth_jobs.Postgres.{
  Context, Database, PostgreSql, cancel_statement, redrive_statement, get_statement,
  enqueue_statement, complete_statement, fail_statement, claim_statement,
}
use gotth_jobs.Lifecycle.{
  claim_with_token, claim_token, claim, heartbeat, complete, fail, usable, validate_lease,
  microseconds,
}
use gotth_jobs.Enqueue.{
  inserted, enqueue_prepared, enqueue_own, enqueue, enqueue_with, database_of, no_result,
  available_argument,
}
use gotth_jobs.Calls.Keeping.{
  Keeping, guarded-Keeping, if-P, transact-Keeping, lease_mutation-Keeping, heartbeat-Keeping,
  claim_valid-Keeping, both_none, check-none,
}

-- The methods of a repository with a database. A nil context stops each before any statement.
module _ {S : Type 0} (allowed : Statement → Type 0) (P : S → Type 0) (database : Database S)
    (keeps : Preserves allowed P database) where
  abbrev pub repository : Option (PostgreSql S)
  repository = some (record { database = some database })

  pub complete-Keeping :
      (ctx : Option Context) (lease : Lease)
      → (validate_lease lease ≡ none
          → allowed (job_statement (complete_statement lease.job_id lease.token)))
      → Keeping P (complete repository ctx lease)
  unfolding complete usable
  complete-Keeping none lease sends s p = p
  complete-Keeping (some ctx) lease sends s p =
      guarded-Keeping P zero_job (validate_lease lease) _
        (λ valid.
          lease_mutation-Keeping allowed P database keeps (some ctx) lease.job_id _ (sends valid))
        s p

  pub fail-Keeping :
      (ctx : Option Context) (lease : Lease) (failure : Failure)
      → ((validate_lease lease <|> validate_failure failure) ≡ none
          → allowed (
              job_statement (
                fail_statement lease.job_id lease.token failure.message failure.permanent
                  (microseconds failure.retry_after))))
      → Keeping P (fail repository ctx lease failure)
  unfolding fail usable
  fail-Keeping none lease failure sends s p = p
  fail-Keeping (some ctx) lease failure sends s p =
      guarded-Keeping P zero_job (validate_lease lease <|> validate_failure failure) _
        (λ valid.
          lease_mutation-Keeping allowed P database keeps (some ctx) lease.job_id _ (sends valid))
        s p

  pub beat-Keeping :
      (ctx : Option Context) (lease : Lease) (duration : ℤ)
      → ((validate_lease lease <|> validate_lease_duration duration) ≡ none
          → allowed (heartbeat_statement lease.job_id lease.token (microseconds duration)))
      → Keeping P (heartbeat repository ctx lease duration)
  unfolding heartbeat usable
  beat-Keeping none lease duration sends s p = p
  beat-Keeping (some ctx) lease duration sends s p =
      guarded-Keeping P tt (validate_lease lease <|> validate_lease_duration duration) _
        (λ valid.
          heartbeat-Keeping allowed P database keeps (some ctx) lease duration (sends valid))
        s p

  claim_with_token-Keeping :
      (ctx : Option Context) (request : ClaimRequest) (token : Bytes)
      → ((validate_claim request
              <|> check (not (valid_lease_token token)) (invalid_error "lease token is invalid"))
            ≡ none
          → allowed (
              job_statement (
                claim_statement request.queue token request.worker
                  (microseconds request.lease_duration))))
      → Keeping P (claim_with_token repository ctx request token)
  unfolding claim_with_token usable
  claim_with_token-Keeping none request token sends s p = p
  claim_with_token-Keeping (some ctx) request token sends s p =
      guarded-Keeping P zero_job
        (validate_claim request
          <|> check (not (valid_lease_token token)) (invalid_error "lease token is invalid"))
        _
        (λ valid.
          claim_valid-Keeping allowed P database keeps (some ctx) request token (sends valid))
        s p

  claim_token-Keeping :
      (ctx : Option Context) (request : ClaimRequest) (token : Bytes × Option Err)
      → ((validate_claim request
              <|> check (not (valid_lease_token token.0)) (invalid_error "lease token is invalid"))
            ≡ none
          → allowed (
              job_statement (
                claim_statement request.queue token.0 request.worker
                  (microseconds request.lease_duration))))
      → Keeping P (claim_token repository ctx request token)
  unfolding claim_token
  claim_token-Keeping ctx request (token, some err) sends s p = p
  claim_token-Keeping ctx request (token, none) sends s p =
      claim_with_token-Keeping ctx request token sends s p

  pub claim-Keeping :
      (ctx : Option Context) (request : ClaimRequest) (entropy : Bytes) (err : Option Err)
      → ((validate_claim request
              <|> check
                  (not (valid_lease_token (new_opaque_id entropy err).0))
                  (invalid_error "lease token is invalid"))
            ≡ none
          → allowed (
              job_statement (
                claim_statement request.queue
                  (new_opaque_id entropy err).0
                  request.worker
                  (microseconds request.lease_duration))))
      → Keeping P (claim repository ctx request entropy err)
  unfolding claim usable
  claim-Keeping none request entropy err sends s p = p
  claim-Keeping (some ctx) request entropy err sends s p =
      guarded-Keeping P zero_job (validate_claim request) _
        (λ _. claim_token-Keeping (some ctx) request (new_opaque_id entropy err) sends) s p

  canceled_row-Keeping :
      (id : Bytes) (r : Result Job) (s : S)
      → allowed (job_statement (get_statement id))
      → P s
      → P (canceled_row database id r s).1
  unfolding canceled_row
  canceled_row-Keeping id (ok job) s sends p = p
  canceled_row-Keeping id (failed err) s sends p =
      if-P P (is err no_rows) _ _ (keeps.query_job (get_statement id) s sends p) p

  cancel-Keeping :
      (ctx : Option Context) (id : Bytes)
      → (validate_job_id id ≡ none
          → allowed (job_statement (cancel_statement id))
            × allowed (job_statement (get_statement id)))
      → Keeping P (cancel repository ctx id)
  unfolding cancel cancel_job usable
  cancel-Keeping none id sends s p = p
  cancel-Keeping (some ctx) id sends s p =
      guarded-Keeping P zero_job (validate_job_id id) _
        (λ valid.
          transact-Keeping allowed P database keeps zero_job (some ctx) (cancel_job database id)
            λ s' p'.
              canceled_row-Keeping id ((database.query_job (cancel_statement id) s').0 >>= scan_job)
                _ (sends valid).1 (keeps.query_job (cancel_statement id) s' (sends valid).0 p'))
        s p

  redriven_row-Keeping :
      (id : Bytes) (r : Result Job) (s : S)
      → allowed (job_statement (get_statement id))
      → P s
      → P (redriven_row database id r s).1
  unfolding redriven_row
  redriven_row-Keeping id (ok job) s sends p = p
  redriven_row-Keeping id (failed err) s sends p =
      if-P P (is err no_rows) _ _ (keeps.query_job (get_statement id) s sends p) p

  redrive-Keeping :
      (ctx : Option Context) (id : Bytes)
      → (validate_job_id id ≡ none
          → allowed (job_statement (redrive_statement id))
            × allowed (job_statement (get_statement id)))
      → Keeping P (redrive repository ctx id)
  unfolding redrive redrive_job usable
  redrive-Keeping none id sends s p = p
  redrive-Keeping (some ctx) id sends s p =
      guarded-Keeping P zero_job (validate_job_id id) _
        (λ valid.
          transact-Keeping allowed P database keeps zero_job (some ctx) (redrive_job database id)
            λ s' p'.
              redriven_row-Keeping id
                ((database.query_job (redrive_statement id) s').0 >>= scan_job) _ (sends valid).1
                (keeps.query_job (redrive_statement id) s' (sends valid).0 p'))
        s p

  get-Keeping :
      (ctx : Option Context) (id : Bytes)
      → (validate_job_id id ≡ none → allowed (job_statement (get_statement id)))
      → Keeping P (get repository ctx id)
  unfolding get usable
  get-Keeping none id sends s p = p
  get-Keeping (some ctx) id sends s p =
      guarded-Keeping P zero_job (validate_job_id id) _
        (λ valid s' p'. keeps.query_job (get_statement id) s' (sends valid) p') s p

  counts-Keeping : (ctx : Option Context) (queue : Bytes) → Keeping P (counts repository ctx queue)
  unfolding counts usable
  counts-Keeping none queue s p = p
  counts-Keeping (some ctx) queue s p =
      guarded-Keeping P _ (validate_name "queue" queue max_queue_bytes) _
        (λ _ s' p'. keeps.query_counts queue s' p') s p

  list_dead-Keeping :
      (ctx : Option Context) (queue : Bytes) (cursor : Option DeadCursor) (limit : ℤ)
      → Keeping P (list_dead repository ctx queue cursor limit)
  unfolding list_dead usable
  list_dead-Keeping none queue cursor limit s p = p
  list_dead-Keeping (some ctx) queue cursor limit s p =
      guarded-Keeping P []
        (validate_name "queue" queue max_queue_bytes
          <|> (check (ltb_ℤ limit (pos 1) || ltb_ℤ (pos max_dead_page) limit)
                (invalid_error "dead-letter limit must be between 1 and 100")
              <|> validate_cursor cursor))
        _ (λ _ s' p'. keeps.query_dead queue (cursor_time cursor) (cursor_job cursor) limit s' p') s
        p

  inserted-Keeping :
      (sha256 : Bytes → Bytes) (request : EnqueueRequest) (r : Result Job)
      → Keeping P (inserted sha256 database request r)
  unfolding inserted
  inserted-Keeping sha256 request (ok job) s p = p
  inserted-Keeping sha256 request (failed err) s p = if-P P (not (is err no_rows)) _ _ p (
      if-P P (length request.idempotency_key == 0) _ _ p
        (keeps.query_idempotent_job request.queue request.idempotency_key s p))

  enqueue_prepared-Keeping :
      (sha256 : Bytes → Bytes) (request : EnqueueRequest) (id : Bytes × Option Err)
      → allowed (insertion sha256 request id.0)
      → Keeping P (enqueue_prepared sha256 database request id)
  unfolding enqueue_prepared
  enqueue_prepared-Keeping sha256 request (id, some err) sends s p = p
  enqueue_prepared-Keeping sha256 request (id, none) sends s p =
      inserted-Keeping sha256 request _ _ (
        keeps.query_job
          (enqueue_statement id request.queue request.kind request.payload request.idempotency_key
            (request_fingerprint sha256 request) request.max_attempts
            (available_argument request.available_at))
          s sends p)

  enqueue_own-Keeping :
      (sha256 : Bytes → Bytes) (request : EnqueueRequest × Option Err) (id : Bytes × Option Err)
      (ctx : Option Context)
      → (request.1 ≡ none → allowed (insertion sha256 request.0 id.0))
      → Keeping P (enqueue_own sha256 database request id ctx)
  unfolding enqueue_own
  enqueue_own-Keeping sha256 (request, some err) id ctx sends s p = p
  enqueue_own-Keeping sha256 (request, none) id ctx sends s p =
      transact-Keeping allowed P database keeps no_result ctx
        (enqueue_prepared sha256 database request id)
        (enqueue_prepared-Keeping sha256 request id (sends refl)) s p

  enqueue-Keeping :
      (sha256 : Bytes → Bytes) (ctx : Option Context) (request : EnqueueRequest) (entropy : Bytes)
      (err : Option Err)
      → ((prepare_enqueue request).1 ≡ none
          → allowed (insertion sha256 (prepare_enqueue request).0 (new_opaque_id entropy err).0))
      → Keeping P (enqueue sha256 repository ctx request entropy err)
  unfolding enqueue enqueue_with database_of
  enqueue-Keeping sha256 none request entropy err sends s p = p
  enqueue-Keeping sha256 (some ctx) request entropy err sends s p =
      enqueue_own-Keeping sha256 (prepare_enqueue request) (new_opaque_id entropy err) (some ctx)
        sends s p

  -- A call keeps what the database keeps for the statements that it sends.
  pub invoke-Keeping :
      (sha256 : Bytes → Bytes) (ctx : Option Context) (call : Call)
      → ((q : Statement) → Sends sha256 call q → allowed q)
      → (s : S) → P s
      → P (invoke sha256 repository ctx call s)
  unfolding invoke
  invoke-Keeping sha256 ctx (call_enqueue request entropy err) allows s p =
      enqueue-Keeping sha256 ctx request entropy err (λ v. allows _ (v, refl)) s p
  invoke-Keeping sha256 ctx (call_claim request entropy err) allows s p =
      claim-Keeping ctx request entropy err
        (λ v.
          let (valid, formed) = both_none (validate_claim request) _ v in
          allows _ (valid, check-none _ _ formed, refl))
        s p
  invoke-Keeping sha256 ctx (call_heartbeat lease duration) allows s p =
      beat-Keeping ctx lease duration
        (λ v.
          let (valid, lasting) = both_none (validate_lease lease) _ v in
          allows _ (valid, lasting, refl))
        s p
  invoke-Keeping sha256 ctx (call_complete lease) allows s p =
      complete-Keeping ctx lease (λ v. allows _ (v, refl)) s p
  invoke-Keeping sha256 ctx (call_fail lease failure) allows s p =
      fail-Keeping ctx lease failure
        (λ v.
          let (valid, sent) = both_none (validate_lease lease) _ v in allows _ (valid, sent, refl))
        s p
  invoke-Keeping sha256 ctx (call_get id) allows s p =
      get-Keeping ctx id (λ v. allows _ (v, refl)) s p
  invoke-Keeping sha256 ctx (call_counts queue) allows s p = counts-Keeping ctx queue s p
  invoke-Keeping sha256 ctx (call_list_dead queue cursor limit) allows s p =
      list_dead-Keeping ctx queue cursor limit s p
  invoke-Keeping sha256 ctx (call_cancel id) allows s p =
      cancel-Keeping ctx id (λ v. (allows _ (v, inl refl), allows _ (v, inr refl))) s p
  invoke-Keeping sha256 ctx (call_redrive id) allows s p =
      redrive-Keeping ctx id (λ v. (allows _ (v, inl refl), allows _ (v, inr refl))) s p
