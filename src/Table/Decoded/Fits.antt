-- ===== src/Table/Decoded/Fits.antt =====
-- The job of a row that satisfies the constraints passes validateStoredJob.
use gotth_jobs.Common.{
  ℕ, ◌≤◌, pos, ◌≡◌, refl, true, false, Option, none, some, [], arith, length, every, String,
}
use gotth_jobs.Bytes.{Bytes, bytes_eq, bytes_eq_self}
use gotth_jobs.Types.{
  State, pending, running, succeeded, dead, canceled, other, Job, Time, zero_time, zero_lease,
}
use gotth_jobs.Values.{is_postgresql_timestamp, validate_name, is_zero, is_name_byte}
use gotth_jobs.Values.Identifiers.{valid_job_id, valid_lease_token}
use gotth_jobs.Rows.{
  or_empty, utc, optional_misfit, attempts_misfit, is_terminal, lease_check, same_truth,
  lacks_lease, out_of_bounds, idle_lease, has_lease, is_nil,
}
use gotth_jobs.Rows.Stored.{IsStored}
use gotth_jobs.Table.{
  Row, satisfies_checks, fixed_checks, attempt_checks, lease_checks, finished_shape, to_time,
  between, null_or,
}
use gotth_jobs.Table.Statements.Checks.{IsChecked, checked→}
use gotth_jobs.Table.Decoded.{time_or_zero, job_of, IsReadableOption, IsReadable}

nonzero : (t : Time) → is_postgresql_timestamp t ≡ true → is_zero t ≡ false
unfolding is_postgresql_timestamp
nonzero t h = ground arith

optional_fits : (o : Option ℕ) → IsReadableOption o → optional_misfit (time_or_zero o) ≡ false
unfolding optional_misfit is_zero
optional_fits none h = refl
optional_fits (some n) h = rw h (ground arith)

name_fits :
    (label : String) (name : Bytes)
    → between 1 128 (length name) ≡ true
    → every is_name_byte name ≡ true
    → validate_name label name 128 ≡ none
unfolding validate_name
name_fits label name l e = rw e (ground arith)

not_terminal : (s : State) → finished_shape s none ≡ true → is_terminal s ≡ false
unfolding finished_shape is_terminal
not_terminal s f = ground arith

terminal :
    (s : State) (a m n : ℕ)
    → attempt_checks s a m ≡ true
    → finished_shape s (some n) ≡ true
    → is_terminal s ≡ true
unfolding finished_shape is_terminal attempt_checks
terminal s a m n c f = ground arith

finishes :
    (s : State) (a m : ℕ) (o : Option ℕ)
    → attempt_checks s a m ≡ true
    → finished_shape s o ≡ true
    → IsReadableOption o
    → same_truth (is_terminal s) (is_zero (time_or_zero o)) ≡ false
unfolding finished_shape is_terminal is_zero
finishes s a m none c f h = rw (not_terminal s f) refl
finishes s a m (some n) c f h = rw (terminal s a m n c f, nonzero (utc (to_time n)) h) refl

attempts_fit :
    (s : State) (a m : ℕ) → attempt_checks s a m ≡ true → attempts_misfit s (pos a) (pos m) ≡ false
unfolding attempt_checks attempts_misfit
attempts_fit s a m c = ground arith

-- The lease columns of a row that is not running are NULL.
unleased :
    (s : State) (token owner : Option Bytes) (until : Option ℕ)
    → lease_checks s token owner until ≡ true
    → (s ≡ running → ⊥)
    → (token ≡ none) × (owner ≡ none) × (until ≡ none)
unfolding lease_checks
unleased running token owner until c n = absurd (n refl)
unleased pending token owner until c n = ground arith
unleased succeeded token owner until c n = ground arith
unleased dead token owner until c n = ground arith
unleased canceled token owner until c n = ground arith
unleased (other text) token owner until c n = ground arith

idle_fits :
    (job : Job)
    → job.lease ≡ zero_lease
    → job.lease_owner ≡ []
    → job.lease_until ≡ zero_time
    → idle_lease job ≡ none
unfolding idle_lease has_lease is_zero bytes_eq
idle_fits job l w v = rw (l, w, v) refl

running_fits :
    (job : Job) (token : Bytes)
    → job.lease ≡ record { job_id = job.id; token = token }
    → valid_lease_token token ≡ true
    → between 1 256 (length job.lease_owner) ≡ true
    → is_zero job.lease_until ≡ false
    → lease_check running job ≡ none
unfolding lease_check lacks_lease
running_fits job token l v w z = rw (l, bytes_eq_self job.id, v, z) (ground arith)

lease_parts :
    (t o : Bytes) (u : ℕ)
    → lease_checks running (some t) (some o) (some u) ≡ true
    → (valid_lease_token t ≡ true) × (between 1 256 (length o) ≡ true)
unfolding lease_checks
lease_parts t o u c = ground arith

held :
    (r : Row) (token owner : Option Bytes) (until : Option ℕ)
    → r.lease_token ≡ token
    → r.lease_owner ≡ owner
    → r.lease_until ≡ until
    → lease_checks running token owner until ≡ true
    → IsReadableOption until
    → lease_check running (job_of r) ≡ none
unfolding job_of
held r (some t) (some o) (some u) et eo eu c h =
    let (v, w) = lease_parts t o u c in
    running_fits (job_of r) t (rw et refl) v (rw eo w) (rw eu (nonzero (utc (to_time u)) h))
held r none owner until et eo eu c h = unfold lease_checks in ground arith
held r (some t) none until et eo eu c h = unfold lease_checks in ground arith
held r (some t) (some o) none et eo eu c h = unfold lease_checks in ground arith

idle_row :
    (r : Row)
    → lease_checks r.state r.lease_token r.lease_owner r.lease_until ≡ true
    → (r.state ≡ running → ⊥)
    → idle_lease (job_of r) ≡ none
unfolding job_of
idle_row r c n =
    let (t, o, u) = unleased r.state r.lease_token r.lease_owner r.lease_until c n in
    idle_fits (job_of r) (rw t refl) (rw o refl) (rw u refl)

lease_fits :
    (r : Row) (s : State)
    → r.state ≡ s
    → lease_checks r.state r.lease_token r.lease_owner r.lease_until ≡ true
    → attempt_checks r.state r.attempts r.max_attempts ≡ true
    → IsReadableOption r.lease_until
    → lease_check s (job_of r) ≡ none
unfolding lease_check
lease_fits r running e c a h =
    held r r.lease_token r.lease_owner r.lease_until refl refl refl (rw e at c) h
lease_fits r pending e c a h = idle_row r c (λ n. cc (e, n))
lease_fits r succeeded e c a h = idle_row r c (λ n. cc (e, n))
lease_fits r dead e c a h = idle_row r c (λ n. cc (e, n))
lease_fits r canceled e c a h = idle_row r c (λ n. cc (e, n))
lease_fits r (other text) e c a h = unfold attempt_checks in ground (arith, e)

-- What the constraints say of the columns that the scanners measure.
pub record IsMeasured (r : Row) : Type 0 where
  pub id_length : length r.id ≡ 32
  pub id : valid_job_id r.id ≡ true
  pub queue : between 1 128 (length r.queue) ≡ true
  pub kind : between 1 128 (length r.kind) ≡ true
  pub payload : length r.payload ≤ 1048576
  pub key : null_or (λ k. between 1 256 (length k)) r.idempotency_key ≡ true

pub fixed_checks-IsMeasured : (r : Row) → fixed_checks r ≡ true → IsMeasured r
unfolding fixed_checks valid_job_id
fixed_checks-IsMeasured r h = record {
  id_length = ground arith;
  id = ground arith;
  queue = ground arith;
  kind = ground arith;
  payload = ground arith;
  key = ground arith;
}

optional_length :
    (lo hi : ℕ) (o : Option Bytes)
    → null_or (λ k. between lo hi (length k)) o ≡ true
    → length (or_empty o) ≤ hi
optional_length lo hi none h = omega arith
optional_length lo hi (some b) h = ground arith

pub attempts_measured :
    (s : State) (a m : ℕ) → attempt_checks s a m ≡ true → (a ≤ m) × (1 ≤ m) × (m ≤ 100)
unfolding attempt_checks
attempts_measured s a m h = ground arith

bounds_fit : (r : Row) → IsChecked r → IsMeasured r → out_of_bounds (job_of r) ≡ false
unfolding job_of out_of_bounds
bounds_fit r c m =
    let key = optional_length 1 256 r.idempotency_key m.key in
    let attempts = attempts_measured r.state r.attempts r.max_attempts c.attempted in
    let payload = m.payload in let last = c.bounded in ground arith

pub job_of-IsStored : (r : Row) → satisfies_checks r ≡ true → IsReadable r → IsStored (job_of r)
unfolding job_of
job_of-IsStored r h readable =
    let c = checked→ r h in
    let m = fixed_checks-IsMeasured r c.fixed in
    record {
      id = m.id;
      queue = name_fits "stored queue" r.queue m.queue readable.queue;
      kind = name_fits "stored kind" r.kind m.kind readable.kind;
      payload = unfold is_nil in refl;
      bounds = bounds_fit r c m;
      available = readable.available;
      created = readable.created;
      updated = readable.updated;
      until = optional_fits r.lease_until readable.until;
      finished = optional_fits r.finished_at readable.finished;
      key_text = readable.key;
      owner_text = readable.owner;
      error_text = readable.last;
      attempts = attempts_fit r.state r.attempts r.max_attempts c.attempted;
      lease = lease_fits r r.state refl c.leased c.attempted readable.until;
      terminal =
          finishes r.state r.attempts r.max_attempts r.finished_at c.attempted c.finished
            readable.finished;
    }
