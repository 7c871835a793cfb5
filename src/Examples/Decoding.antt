-- ===== src/Examples/Decoding.antt =====
-- The theorem about decoded rows at a concrete row.
use gotth_jobs.Common.{◌≡◌, refl, every, true}
use gotth_jobs.Errors.{ok}
use gotth_jobs.Rows.{scan_job, bad_text}
use gotth_jobs.Table.{satisfies_checks, columns}
use gotth_jobs.Table.Decoded.{job_of, IsReadable}
use gotth_jobs.Table.Decoded.Scan.{scan_job-columns}
use gotth_jobs.Examples.{running_job}

pub running_checks : satisfies_checks running_job ≡ true
unfolding satisfies_checks every gotth_jobs.Table.fixed_checks
    gotth_jobs.Values.Identifiers.valid_job_id gotth_jobs.Bytes.is_hex_digit
    gotth_jobs.Values.Identifiers.valid_lease_token
running_checks = refl

pub running-IsReadable : IsReadable running_job
unfolding every bad_text gotth_jobs.Values.is_name_byte gotth_jobs.Values.is_postgresql_timestamp
    gotth_jobs.Values.is_zero gotth_jobs.Values.before gotth_jobs.Values.Utf8.valid_utf8
    gotth_jobs.Table.to_time gotth_jobs.Bytes.contains_nul
running-IsReadable = record {
  queue = refl;
  kind = refl;
  key = refl;
  owner = refl;
  last = refl;
  available = refl;
  created = refl;
  updated = refl;
  until = refl;
  finished = tt;
}

scan_job-columns_example : scan_job (columns running_job) ≡ ok (job_of running_job)
scan_job-columns_example = scan_job-columns running_job running_checks running-IsReadable
