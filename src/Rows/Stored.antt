-- ===== src/Rows/Stored.antt =====
-- validateStoredJob, condition by condition.
use gotth_jobs.Common.{◌≡◌, refl, Bool, true, false, not, ◌||◌, Option, none, some, arith}
use gotth_jobs.Types.{Job, max_queue_bytes, max_kind_bytes}
use gotth_jobs.Errors.{Err, check, none-first_error, first_error-none}
use gotth_jobs.Values.{is_postgresql_timestamp, validate_name, is_zero}
use gotth_jobs.Values.Identifiers.{valid_job_id}
use gotth_jobs.Rows.{
  validate_stored_job, lease_check, bad_text, out_of_bounds, is_nil, optional_misfit,
  attempts_misfit, is_terminal, same_truth, contract, stored_checks,
}

pub record IsStored (job : Job) : Type 0 where
  pub id : valid_job_id job.id ≡ true
  pub queue : validate_name "stored queue" job.queue max_queue_bytes ≡ none
  pub kind : validate_name "stored kind" job.kind max_kind_bytes ≡ none
  pub payload : is_nil job.payload ≡ false
  pub bounds : out_of_bounds job ≡ false
  pub available : is_postgresql_timestamp job.available_at ≡ true
  pub created : is_postgresql_timestamp job.created_at ≡ true
  pub updated : is_postgresql_timestamp job.updated_at ≡ true
  pub until : optional_misfit job.lease_until ≡ false
  pub finished : optional_misfit job.finished_at ≡ false
  pub key_text : bad_text job.idempotency_key ≡ false
  pub owner_text : bad_text job.lease_owner ≡ false
  pub error_text : bad_text job.last_error ≡ false
  pub attempts : attempts_misfit job.state job.attempts job.max_attempts ≡ false
  pub lease : lease_check job.state job ≡ none
  pub terminal : same_truth (is_terminal job.state) (is_zero job.finished_at) ≡ false

contract-none : (e : Option Err) → contract e ≡ none → e ≡ none
contract-none none h = refl
contract-none (some e) h = cc

check-false : (b : Bool) (e : Err) → check b e ≡ none → b ≡ false
check-false true e h = cc
check-false false e h = refl

not-false : (b : Bool) → not b ≡ false → b ≡ true
not-false b h = ground arith

or_false : (a b : Bool) → (a || b) ≡ false → (a ≡ false) × (b ≡ false)
or_false a b h = ground arith

or_false₃ : (a b c : Bool) → (a || b || c) ≡ false → (a ≡ false) × (b ≡ false) × (c ≡ false)
or_false₃ a b c h = ground arith

-- A job passes validateStoredJob exactly if it meets every condition.
pub validate-IsStored : (job : Job) → validate_stored_job job ≡ none → IsStored job
unfolding validate_stored_job stored_checks
validate-IsStored job h =
    let (
      id,
      (
        queue,
        (
          kind,
          (payload, (bounds, (mandatory, (optional, (texts, (attempts, (lease, (terminal, _)))))))),
        ),
      ),
    ) =
      first_error-none (stored_checks job) h in
    let (available, created, updated) = or_false₃ _ _ _ (check-false _ _ mandatory) in
    let (until, finished) = or_false _ _ (check-false _ _ optional) in
    let (key, owner, last) = or_false₃ _ _ _ (check-false _ _ texts) in
    record {
      id = not-false _ (check-false _ _ id);
      queue = contract-none _ queue;
      kind = contract-none _ kind;
      payload = check-false _ _ payload;
      bounds = check-false _ _ bounds;
      available = not-false _ available;
      created = not-false _ created;
      updated = not-false _ updated;
      until = until;
      finished = finished;
      key_text = key;
      owner_text = owner;
      error_text = last;
      attempts = check-false _ _ attempts;
      lease = lease;
      terminal = check-false _ _ terminal;
    }

pub IsStored-validate : (job : Job) → IsStored job → validate_stored_job job ≡ none
unfolding validate_stored_job stored_checks
IsStored-validate job s = none-first_error (stored_checks job) (
  (rw s.id refl),
  (
    (rw s.queue refl),
    (
      (rw s.kind refl),
      (
        (rw s.payload refl),
        (
          (rw s.bounds refl),
          (
            (rw (s.available, s.created, s.updated) refl),
            (
              (rw (s.until, s.finished) refl),
              (
                (rw (s.key_text, s.owner_text, s.error_text) refl),
                ((rw s.attempts refl), (s.lease, ((rw s.terminal refl), tt))),
              ),
            ),
          ),
        ),
      ),
    ),
  ),
)
