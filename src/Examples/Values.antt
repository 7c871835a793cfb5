-- ===== src/Examples/Values.antt =====
-- The theorems about retries and identifiers at concrete values.
use gotth_jobs.Values.{is_postgresql_timestamp, minimum_timestamp, is_zero, before}
use gotth_jobs.Table.{to_time}
use gotth_jobs.Values.Fingerprint.Framing.{fingerprint_input-injective}
use gotth_jobs.Bytes.{codes}
use gotth_jobs.Common.{
  ◌*◌, ◌%◌, ◌^◌, ◌≤◌, ℕ, pos, min, ◌≡◌, refl, none, some, replicate, arith, true, false, negsuc,
}
use gotth_jobs.Types.{RetryPolicy, microsecond, EnqueueRequest, zero_time}
use gotth_jobs.Errors.{invalid_error}
use gotth_jobs.Retry.{delay}
use gotth_jobs.Retry.Bounds.{delay_closed_form, delay_rejects, delay_precise}
use gotth_jobs.Values.Identifiers.{
  new_opaque_id, valid_job_id, valid_lease_token, new_opaque_id_valid,
}

-- One second, doubled up to a minute.
abbrev policy : RetryPolicy
policy = record { initial = pos 1000000000; maximum = pos 60000000000 }

delay_closed_form_example :
    delay policy (pos 4) ≡ (pos (min (1000000000 * 2 ^ 3) 60000000000), none)
delay_closed_form_example = delay_closed_form policy (pos 4) (omega arith)

delay_rejects_example :
    delay policy (pos 0) ≡ (pos 0, some (invalid_error "retry policy is invalid"))
delay_rejects_example = delay_rejects policy (pos 0) (λ h. omega arith)

delay_precise_example :
    (n : ℕ) × (delay policy (pos 100) ≡ (pos n, none)) × (n ≤ 60000000000) × (n % microsecond ≡ 0)
delay_precise_example = delay_precise policy (pos 100) (omega arith) refl refl

new_opaque_id_valid_example :
    (valid_job_id (new_opaque_id (replicate 16 0xab) none).0 ≡ true)
    × (valid_lease_token (new_opaque_id (replicate 16 0xab) none).0 ≡ false)
new_opaque_id_valid_example = new_opaque_id_valid (replicate 16 0xab) (omega arith)

-- A request, which another one repeats under a different key.
abbrev request : EnqueueRequest
request = record {
  queue = codes "mail";
  kind = codes "send";
  payload = some (codes "{}");
  idempotency_key = codes "k";
  max_attempts = pos 3;
  available_at = zero_time;
}

fingerprint_input-injective_example :
    (codes "mail" ≡ codes "mail")
    × (codes "send" ≡ codes "send")
    × (codes "{}" ≡ codes "{}")
    × (pos 3 ≡ pos 3)
unfolding gotth_jobs.Values.copied gotth_jobs.Values.Fingerprint.fingerprint_input
fingerprint_input-injective_example =
    fingerprint_input-injective request (record request { idempotency_key = codes "other" }) 3 3
      refl refl (omega arith) (omega arith) (omega arith) (omega arith) (omega arith) (omega arith)
      (omega arith) (omega arith) refl

-- The first timestamp that is accepted, which the table counts as 0, and the microsecond before it.
first_accepted :
    (is_postgresql_timestamp minimum_timestamp ≡ true)
    × (record (to_time 0) { in_utc = true } ≡ minimum_timestamp)
unfolding is_postgresql_timestamp is_zero before to_time
first_accepted = (refl, refl)

earlier_refused :
    is_postgresql_timestamp
      (record { seconds = negsuc 148731206400; nanosecond = 999999000; in_utc = true })
    ≡ false
unfolding is_postgresql_timestamp is_zero before
earlier_refused = refl
