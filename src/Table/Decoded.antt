-- ===== src/Table/Decoded.antt =====
-- The job that a row of the table stands for, and the rows whose columns Go accepts.
pub mod Fits
pub mod Scan
use gotth_jobs.Common.{
  ℕ, zero, suc, ◌≤◌, ℤ, pos, ◌≡◌, refl, Bool, true, false, not, ◌||◌, ◌&&◌, Option, none, some, [],
  ◌∷◌, arith, length, leb_ℤ, ltb_ℤ, eqb_ℤ, ltb, leb, ◌==◌, every, if◌then◌else◌, Bool-cases, inl,
  inr, String,
}
use gotth_jobs.Bytes.{Bytes, bytes_eq, bytes_eq_self, codes}
use gotth_jobs.Types.{
  State, pending, running, succeeded, dead, canceled, other, Job, Time, Lease, zero_time,
  zero_lease, max_queue_bytes,
}
use gotth_jobs.Errors.{Err, Result, ok, failed, ◌>>=◌}
use gotth_jobs.Values.{is_postgresql_timestamp, validate_name, is_zero, is_name_byte}
use gotth_jobs.Values.Identifiers.{valid_job_id, valid_lease_token}
use gotth_jobs.Rows.{
  scan_job, scan_bounded, scan_nullable, state_of_text, state_text, or_empty, lease_of, utc,
  require_time, optional_time, bad_text, optional_misfit, validate_stored_job, attempts_misfit,
  is_terminal, lease_check, same_truth, lacks_lease, out_of_bounds, idle_lease, has_lease, is_nil,
}
use gotth_jobs.Rows.Stored.{IsStored, IsStored-validate}
use gotth_jobs.Table.{
  Row, satisfies_checks, fixed_checks, attempt_checks, lease_checks, finished_shape, columns,
  to_time, map_option, between, null_or,
}
use gotth_jobs.Table.Statements.Checks.{IsChecked, checked→}

abbrev pub time_or_zero : Option ℕ → Time
time_or_zero none = zero_time
time_or_zero (some n) = utc (to_time n)

-- The job that a row stands for.
unfoldable pub job_of : Row → Job
unfolding to_time
job_of r = record {
  id = r.id;
  queue = r.queue;
  kind = r.kind;
  payload = some r.payload;
  idempotency_key = or_empty r.idempotency_key;
  state = r.state;
  attempts = pos r.attempts;
  max_attempts = pos r.max_attempts;
  available_at = utc (to_time r.available_at);
  created_at = utc (to_time r.created_at);
  updated_at = utc (to_time r.updated_at);
  lease = lease_of r.id r.lease_token;
  lease_owner = or_empty r.lease_owner;
  lease_until = time_or_zero r.lease_until;
  last_error = r.last_error;
  finished_at = time_or_zero r.finished_at;
}

-- A time of the table that Go's rules accept: finite, and not Go's zero time.
abbrev pub IsReadableTime : ℕ → Type 0
IsReadableTime n = is_postgresql_timestamp (utc (to_time n)) ≡ true

abbrev pub IsReadableOption : Option ℕ → Type 0
IsReadableOption none = Unit {0}
IsReadableOption (some n) = IsReadableTime n

-- What the table's constraints leave open: the alphabet of names, the encoding of texts and the times.
pub record IsReadable (r : Row) : Type 0 where
  pub queue : every is_name_byte r.queue ≡ true
  pub kind : every is_name_byte r.kind ≡ true
  pub key : bad_text (or_empty r.idempotency_key) ≡ false
  pub owner : bad_text (or_empty r.lease_owner) ≡ false
  pub last : bad_text r.last_error ≡ false
  pub available : IsReadableTime r.available_at
  pub created : IsReadableTime r.created_at
  pub updated : IsReadableTime r.updated_at
  pub until : IsReadableOption r.lease_until
  pub finished : IsReadableOption r.finished_at
