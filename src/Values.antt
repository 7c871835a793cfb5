-- ===== src/Values.antt =====
-- pkg/jobs/values.go: validation of what callers hand in. A returned `error` is an `Option Err`.
pub mod Utf8
pub mod Fingerprint
pub mod Identifiers
use gotth_jobs.Common.{
  ℕ, ◌*◌, ◌%◌, ◌≡◌, ℤ, pos, negsuc, Bool, true, false, not, ◌&&◌, ◌||◌, Option, none, some, List,
  [], ◌∷◌, ◌++◌, String, ltb, leb, ◌==◌, if◌then◌else◌, leb_ℤ, ltb_ℤ, eqb_ℤ, mod_ℤ, length, every,
  pos_part, neg_part, sub_ℕ,
}
use gotth_jobs.Bytes.{Bytes, contains_nul, is_lower_hex, codes}
use gotth_jobs.Types.{
  Time, EnqueueRequest, ClaimRequest, Failure, max_queue_bytes, max_kind_bytes, max_worker_bytes,
  max_idempotency_key_bytes, max_payload_bytes, max_failure_bytes, max_attempts_limit, microsecond,
  min_lease_duration, max_lease_duration, max_retry_delay, zero_time,
}
use gotth_jobs.Errors.{Err, invalid_error, invalid_field, ◌<|>◌, check}
use Utf8.{valid_utf8}

-- t.IsZero(), t.Before(u)
unfoldable pub is_zero : Time → Bool
is_zero t = eqb_ℤ t.seconds (pos 0) && t.nanosecond == 0

unfoldable pub before : Time → Time → Bool
before t u =
    ltb_ℤ t.seconds u.seconds || (eqb_ℤ t.seconds u.seconds && ltb t.nanosecond u.nanosecond)

-- 24 November of astronomical year -4713, which is 1721426 days of 86400 seconds before 1 January of
-- year 1, and the last microsecond of year 294276.
abbrev pub minimum_timestamp : Time
minimum_timestamp = record { seconds = negsuc 148731206399; nanosecond = 0; in_utc = true }

abbrev pub maximum_timestamp : Time
maximum_timestamp = record { seconds = pos 9286453612799; nanosecond = 999999000; in_utc = true }

unfoldable pub is_postgresql_timestamp : Time → Bool
unfolding is_zero before
is_postgresql_timestamp value =
    not (is_zero value)
    && (value.in_utc
        && (value.nanosecond % microsecond == 0
            && (not (before value minimum_timestamp) && not (before maximum_timestamp value))))

-- The alphabet of validateName.
unfoldable pub is_name_byte : ℕ → Bool
is_name_byte c =
    (leb b'a' c && leb c b'z')
    || (leb b'A' c && leb c b'Z')
    || (leb b'0' c && leb c b'9')
    || (c == b'.' || c == b'_' || c == b':' || c == b'/' || c == b'-')

unfoldable pub validate_name : String → Bytes → ℕ → Option Err
validate_name label value maximum =
    check (length value == 0 || ltb maximum (length value))
      (invalid_field label " length is invalid")
    <|> check (not (every is_name_byte value)) (invalid_field label " contains an invalid byte")

-- len of a slice that may be nil
unfoldable pub slice_length : Option Bytes → ℕ
slice_length none = 0
slice_length (some b) = length b

unfoldable pub validate_enqueue : EnqueueRequest → Option Err
unfolding slice_length
validate_enqueue request =
    validate_name "queue" request.queue max_queue_bytes
    <|> (validate_name "kind" request.kind max_kind_bytes
        <|> (check (ltb max_payload_bytes (slice_length request.payload))
              (invalid_error "payload exceeds 1048576 bytes")
            <|> (check
                  (ltb max_idempotency_key_bytes (length request.idempotency_key)
                    || contains_nul request.idempotency_key
                    || not (valid_utf8 request.idempotency_key))
                  (invalid_error "idempotency key is invalid")
                <|> (check
                      (ltb_ℤ request.max_attempts (pos 1)
                        || ltb_ℤ (pos max_attempts_limit) request.max_attempts)
                      (invalid_error "max attempts must be between 1 and 100")
                    <|> check
                        (not (is_zero request.available_at)
                          && not (is_postgresql_timestamp request.available_at))
                        (invalid_error
                          "availability must use UTC, PostgreSQL microsecond precision, and the finite timestamp range")))))

-- `make` and `copy`: the copied payload is never nil.
unfoldable pub copied : Option Bytes → Bytes
copied none = []
copied (some b) = b

unfoldable pub clone_enqueue : EnqueueRequest → EnqueueRequest
unfolding copied
clone_enqueue request = record request { payload = some (copied request.payload) }

abbrev pub empty_request : EnqueueRequest
empty_request = record {
  queue = [];
  kind = [];
  payload = none;
  idempotency_key = [];
  max_attempts = pos 0;
  available_at = zero_time;
}

or_prepared : Option Err → EnqueueRequest → EnqueueRequest × Option Err
or_prepared (some err) request = (empty_request, some err)
or_prepared none request = (request, none)

unfoldable pub prepare_enqueue : EnqueueRequest → EnqueueRequest × Option Err
unfolding or_prepared
prepare_enqueue request = or_prepared (validate_enqueue request) (clone_enqueue request)

-- The bounds of a lease, which Claim and Heartbeat check alike.
unfoldable pub validate_lease_duration : ℤ → Option Err
validate_lease_duration duration =
    check (ltb_ℤ duration (pos min_lease_duration) || ltb_ℤ (pos max_lease_duration) duration)
      (invalid_error "lease must be between 1s and 1h0m0s")
    <|> check (not (eqb_ℤ (mod_ℤ duration microsecond) (pos 0)))
        (invalid_error "lease must use PostgreSQL microsecond precision")

unfoldable pub validate_claim : ClaimRequest → Option Err
validate_claim request =
    validate_name "queue" request.queue max_queue_bytes
    <|> (check
          (length request.worker == 0
            || ltb max_worker_bytes (length request.worker)
            || contains_nul request.worker
            || not (valid_utf8 request.worker))
          (invalid_error "worker is invalid")
        <|> validate_lease_duration request.lease_duration)

unfoldable pub validate_failure : Failure → Option Err
validate_failure failure =
    check
      (ltb max_failure_bytes (length failure.message)
        || contains_nul failure.message
        || not (valid_utf8 failure.message))
      (invalid_error "failure message is invalid")
    <|> (check
          (ltb_ℤ failure.retry_after (pos 0) || ltb_ℤ (pos max_retry_delay) failure.retry_after)
          (invalid_error "retry delay must be between zero and 24h0m0s")
        <|> (check (not (eqb_ℤ (mod_ℤ failure.retry_after microsecond) (pos 0)))
              (invalid_error "retry delay must use PostgreSQL microsecond precision")
            <|> check (failure.permanent && not (eqb_ℤ failure.retry_after (pos 0)))
                (invalid_error "permanent failure cannot carry a retry delay")))
