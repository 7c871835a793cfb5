-- ===== src/Worker/Claimed.antt =====
-- What the worker has checked before it runs a handler, and before it reports a failure.
use gotth_jobs.Common.{
  ℕ, ℤ, pos, negsuc, ◌≡◌, refl, sym, subst, Bool, true, false, not, ◌||◌, none, some, arith, length,
  ◌≤ℤ◌, eqb_ℤ, mod_ℤ, ◌%◌, ◌≤◌, pos_part, ◌<◌, Bool-cases, inl, inr,
}
use gotth_jobs.Bytes.{Bytes, bytes_eq, bytes_eq→eq}
use gotth_jobs.Types.{
  State, pending, running, succeeded, dead, canceled, other, Job, RetryPolicy, max_retry_delay,
  microsecond, ClaimRequest,
}
use gotth_jobs.Errors.{Err, check, is_permanent, first_error-none}
use gotth_jobs.Rows.{
  has_lease, lacks_lease, lease_check, out_of_bounds, attempts_misfit, validate_stored_job,
}
use gotth_jobs.Rows.Stored.{validate-IsStored}
use gotth_jobs.Values.{validate_failure, validate_claim}
use gotth_jobs.Values.Identifiers.{valid_lease_token}
use gotth_jobs.Lifecycle.{validate_lease}
use gotth_jobs.Retry.{delay}
use gotth_jobs.Retry.Bounds.{IsUsable, delay_precise}
use gotth_jobs.Worker.{
  Worker, validate_worker, validate_claimed, claim_request, Store, worker_checks,
}
use gotth_jobs.Worker.Attempt.{failure_of, retry_delay}
use gotth_jobs.Worker.Message.Valid.{IsSendable, bounded_failure-IsSendable}

claimed_parts :
    (job : Job) (queue worker_id : Bytes)
    → validate_claimed job queue worker_id ≡ none
    → (bytes_eq job.queue queue ≡ true)
      × (bytes_eq job.lease_owner worker_id ≡ true)
      × (validate_stored_job job ≡ none)
unfolding validate_claimed
claimed_parts job queue worker_id h = ground arith

-- Only a running job may have an owner.
owned :
    (s : State) (job : Job)
    → lease_check s job ≡ none
    → 0 < length job.lease_owner
    → (s ≡ running) × (lacks_lease job ≡ false)
unfolding lease_check has_lease
owned running job h o = (refl, ground arith)
owned (other text) job h o = cc
owned pending job h o = ground arith
owned succeeded job h o = ground arith
owned dead job h o = ground arith
owned canceled job h o = ground arith

running_parts :
    (job : Job)
    → lacks_lease job ≡ false
    → (bytes_eq job.lease.job_id job.id ≡ true) × (valid_lease_token job.lease.token ≡ true)
unfolding lacks_lease
running_parts job h = ground arith

running_attempts :
    (job : Job)
    → attempts_misfit running job.attempts job.max_attempts ≡ false
    → out_of_bounds job ≡ false
    → (pos 1 ≤ℤ job.attempts) × (job.attempts ≤ℤ job.max_attempts)
unfolding attempts_misfit out_of_bounds
running_attempts job h b = ground arith

owner_is :
    (job : Job) (worker_id : Bytes)
    → bytes_eq job.lease_owner worker_id ≡ true
    → 0 < length worker_id
    → 0 < length job.lease_owner
owner_is job worker_id e h =
    subst (λ (b : Bytes). 0 < length b) (sym (bytes_eq→eq job.lease_owner worker_id e)) h

-- A job that the worker hands to its handler is running, in the worker's queue and owned by the
-- worker; its lease is for it, under a token of the right form, and at least one attempt and at most
-- its budget are counted.
pub validate_claimed-running :
    (job : Job) (queue worker_id : Bytes)
    → validate_claimed job queue worker_id ≡ none
    → 0 < length worker_id
    → (job.state ≡ running)
      × (job.queue ≡ queue)
      × (job.lease_owner ≡ worker_id)
      × (job.lease.job_id ≡ job.id)
      × (valid_lease_token job.lease.token ≡ true)
      × (pos 1 ≤ℤ job.attempts)
      × (job.attempts ≤ℤ job.max_attempts)
validate_claimed-running job queue worker_id h w =
    let (q, o, v) = claimed_parts job queue worker_id h in
    let s = validate-IsStored job v in
    let (is_running, leased) = owned job.state job s.lease (owner_is job worker_id o w) in
    let (own_id, token) = running_parts job leased in
    let (low, high) = running_attempts job (rw is_running at s.attempts) s.bounds in
    (
      is_running,
      bytes_eq→eq job.queue queue q,
      bytes_eq→eq job.lease_owner worker_id o,
      bytes_eq→eq job.lease.job_id job.id own_id,
      token,
      low,
      high,
    )

-- The lease of such a job is one that Complete and Fail accept.
pub claimed_lease-valid :
    (job : Job) (queue worker_id : Bytes)
    → validate_claimed job queue worker_id ≡ none
    → 0 < length worker_id
    → validate_lease job.lease ≡ none
unfolding validate_lease
claimed_lease-valid job queue worker_id h w =
    let (_, _, v) = claimed_parts job queue worker_id h in
    let (_, _, _, same, token, _, _) = validate_claimed-running job queue worker_id h w in
    rw (same, (validate-IsStored job v).id, token) refl

delay-IsUsable : (policy : RetryPolicy) → (delay policy (pos 1)).1 ≡ none → IsUsable policy (pos 1)
unfolding delay
delay-IsUsable policy h = ground arith

precise_of :
    (policy : RetryPolicy) (err : Err)
    → IsUsable policy (pos 1)
    → check
        (not (eqb_ℤ (mod_ℤ policy.initial microsecond) (pos 0))
          || not (eqb_ℤ (mod_ℤ policy.maximum microsecond) (pos 0)))
        err
      ≡ none
    → (pos_part policy.initial % microsecond ≡ 0) × (pos_part policy.maximum % microsecond ≡ 0)
precise_of policy err u h = precise_parts policy.initial policy.maximum u (not_or _ _ err h)
  where
    not_or : (a b : Bool) (e : Err) → check (not a || not b) e ≡ none → (a ≡ true) × (b ≡ true)
    not_or a b e h = ground arith

    precise_parts :
        (i m : ℤ)
        → IsUsable (record { initial = i; maximum = m }) (pos 1)
        → (eqb_ℤ (mod_ℤ i microsecond) (pos 0) ≡ true)
          × (eqb_ℤ (mod_ℤ m microsecond) (pos 0) ≡ true)
        → (pos_part i % microsecond ≡ 0) × (pos_part m % microsecond ≡ 0)
    precise_parts (pos i) (pos m) u h = ground arith
    precise_parts (negsuc i) m u h = absurd (omega arith)
    precise_parts (pos i) (negsuc m) u h = absurd (omega arith)

worker_named : (request : ClaimRequest) → validate_claim request ≡ none → 0 < length request.worker
unfolding validate_claim
worker_named request h = ground arith

pub claim_request-valid :
    {S : Type 0} (worker : Worker S)
    → validate_worker worker ≡ none
    → validate_claim (claim_request worker) ≡ none
unfolding validate_worker worker_checks
claim_request-valid worker h = (first_error-none (worker_checks worker) h).1.0

-- What Worker.validate says of the worker's name and of its retry policy.
pub validated_worker :
    {S : Type 0} (worker : Worker S)
    → validate_worker worker ≡ none
    → (0 < length worker.worker_id)
      × IsUsable worker.retry_policy (pos 1)
      × (pos_part worker.retry_policy.initial % microsecond ≡ 0)
      × (pos_part worker.retry_policy.maximum % microsecond ≡ 0)
unfolding validate_worker worker_checks
validated_worker worker h =
    let (_, (claim, (_, (_, (d, (precise, _)))))) = first_error-none (worker_checks worker) h in
    let usable = delay-IsUsable worker.retry_policy d in
    let (initial, maximum) = precise_of worker.retry_policy _ usable precise in
    (worker_named (claim_request worker) claim, usable, initial, maximum)

-- A failure message that fits, with a whole number of microseconds up to a day.
failure_valid :
    (message : Bytes) (n : ℕ) (permanent : Bool)
    → IsSendable message
    → n ≤ max_retry_delay
    → n % microsecond ≡ 0
    → (permanent ≡ true → n ≡ 0)
    → validate_failure (record { message = message; retry_after = pos n; permanent = permanent })
      ≡ none
unfolding validate_failure
failure_valid message n permanent (l, s, v) small whole p = rw (s, v) (ground (arith, p))

part-le : (m : ℤ) (k : ℕ) → m ≤ℤ pos k → pos_part m ≤ k
part-le (pos n) k h = omega arith
part-le (negsuc n) k h = omega arith

-- With a validated worker and a validated claim, the delay of every failure is computed without an
-- error, and Fail accepts the message, the delay and the permanence that the worker sends.
pub failure_of-valid :
    {S : Type 0} (worker : Worker S) (store : Store S) (job : Job) (err : Err)
    → validate_worker worker ≡ none
    → validate_claimed job worker.queue worker.worker_id ≡ none
    → (n : ℕ) × (retry_delay worker store job err ≡ (pos n, none))
      × (validate_failure (failure_of worker store job err (pos n)) ≡ none)
unfolding retry_delay failure_of
failure_of-valid worker store job err wv jv =
    let (named, usable, initial, maximum) = validated_worker worker wv in
    let claimed = validate_claimed-running job worker.queue worker.worker_id jv named in
    let attempts : pos 1 ≤ℤ job.attempts = claimed.5 in
    let (n, delayed, small, whole) =
      delay_precise worker.retry_policy job.attempts (attempts, usable.1, usable.2, usable.3)
        initial maximum in
    elim (Bool-cases (is_permanent (some err))) [
      | inl permanent ↦ (
        0,
        rw permanent refl,
        failure_valid _ 0 _ (bounded_failure-IsSendable err) (omega arith) (omega arith)
            (λ _. refl),
      )
      | inr retried ↦ (
        n,
        rw retried delayed,
        failure_valid _ n _ (bounded_failure-IsSendable err)
            (omega (arith, part-le worker.retry_policy.maximum max_retry_delay usable.3)) whole
            (λ p. cc),
      )
    ]
