-- ===== src/Table/Decoded/Scan.antt =====
-- What scanJobRow reads from a row of the table: the job that the row stands for.
use gotth_jobs.Common.{ℕ, ◌≤◌, ◌≡◌, refl, true, Option, none, some, arith, length, String}
use gotth_jobs.Bytes.{Bytes, bytes_eq, codes}
use gotth_jobs.Types.{State, pending, running, succeeded, dead, canceled, other}
use gotth_jobs.Errors.{ok}
use gotth_jobs.Values.Identifiers.{valid_lease_token}
use gotth_jobs.Rows.{
  scan_job, scan_bounded, scan_nullable, state_of_text, state_text, require_time, optional_time,
}
use gotth_jobs.Rows.Stored.{IsStored-validate}
use gotth_jobs.Table.{
  Row, satisfies_checks, attempt_checks, lease_checks, columns, to_time, map_option, between,
  null_or,
}
use gotth_jobs.Table.Statements.Checks.{checked→}
use gotth_jobs.Table.Decoded.{time_or_zero, job_of, IsReadableOption, IsReadable}
use gotth_jobs.Table.Decoded.Fits.{fixed_checks-IsMeasured, job_of-IsStored}

scan_bounded-ok :
    (lo hi : ℕ) (b : Bytes) → lo ≤ length b → length b ≤ hi → scan_bounded lo hi (some b) ≡ ok b
unfolding scan_bounded
scan_bounded-ok lo hi b l h = ground arith

scan_nullable-ok :
    (lo hi : ℕ) (o : Option Bytes)
    → ((b : Bytes) → o ≡ some b → (lo ≤ length b) × (length b ≤ hi))
    → scan_nullable lo hi o ≡ ok o
unfolding scan_nullable
scan_nullable-ok lo hi none h = refl
scan_nullable-ok lo hi (some b) h = let (l, u) = h b refl in ground arith

optional_time-ok :
    (text : String) (o : Option ℕ)
    → IsReadableOption o
    → optional_time text (map_option to_time o) ≡ ok (time_or_zero o)
unfolding optional_time
optional_time-ok text none h = refl
optional_time-ok text (some n) h = rw h refl

pub state_round :
    (s : State) (a m : ℕ) → attempt_checks s a m ≡ true → state_of_text (state_text s) ≡ s
unfolding attempt_checks state_of_text state_text bytes_eq
state_round pending a m h = refl
state_round running a m h = refl
state_round succeeded a m h = refl
state_round dead a m h = refl
state_round canceled a m h = refl
state_round (other text) a m h = ground arith

pub state_scan :
    (s : State) (a m : ℕ)
    → attempt_checks s a m ≡ true
    → scan_bounded 1 (length (codes "succeeded")) (some (state_text s)) ≡ ok (state_text s)
unfolding attempt_checks state_text scan_bounded
state_scan pending a m h = refl
state_scan running a m h = refl
state_scan succeeded a m h = refl
state_scan dead a m h = refl
state_scan canceled a m h = refl
state_scan (other text) a m h = ground arith

nullable_fits :
    (lo hi : ℕ) (o : Option Bytes)
    → null_or (λ k. between lo hi (length k)) o ≡ true
    → scan_nullable lo hi o ≡ ok o
unfolding scan_nullable
nullable_fits lo hi none h = refl
nullable_fits lo hi (some b) h = ground arith

token_fits :
    (s : State) (token owner : Option Bytes) (until : Option ℕ)
    → lease_checks s token owner until ≡ true
    → (null_or (λ k. between 64 64 (length k)) token ≡ true)
      × (null_or (λ o. between 1 256 (length o)) owner ≡ true)
unfolding lease_checks valid_lease_token
token_fits s none owner until h = (refl, ground arith)
token_fits s (some t) owner until h = (ground arith, ground arith)

-- A row that satisfies the table's constraints, whose names, texts and times are in the range that
-- the package itself writes, is decoded to the job that it stands for, with its times in UTC.
pub scan_job-columns :
    (r : Row) → satisfies_checks r ≡ true → IsReadable r → scan_job (columns r) ≡ ok (job_of r)
unfolding scan_job columns job_of require_time
scan_job-columns r h readable =
    let c = checked→ r h in
    let m = fixed_checks-IsMeasured r c.fixed in
    let (token, owner) = token_fits r.state r.lease_token r.lease_owner r.lease_until c.leased in
    rw
      (
        scan_bounded-ok 32 32 r.id (omega (arith, m.id_length)) (omega (arith, m.id_length)),
        scan_bounded-ok 1 128 r.queue (ground (arith, m.queue)) (ground (arith, m.queue)),
        scan_bounded-ok 1 128 r.kind (ground (arith, m.kind)) (ground (arith, m.kind)),
        scan_bounded-ok 0 1048576 r.payload (omega arith) m.payload,
        nullable_fits 1 256 r.idempotency_key m.key,
        state_scan r.state r.attempts r.max_attempts c.attempted,
        nullable_fits 64 64 r.lease_token token,
        nullable_fits 1 256 r.lease_owner owner,
        scan_bounded-ok 0 4096 r.last_error (omega arith) c.bounded,
        optional_time-ok "stored job has invalid lease timestamp" r.lease_until readable.until,
        optional_time-ok "stored job has invalid finished timestamp" r.finished_at
            readable.finished,
        state_round r.state r.attempts r.max_attempts c.attempted,
        IsStored-validate (job_of r) (job_of-IsStored r h readable),
      )
      refl
