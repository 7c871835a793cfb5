-- ===== src/Examples/Histories.antt =====
-- The theorems about leases and deliveries over a history of statements.
use gotth_jobs.Common.{pos, ◌+◌, ◌≤◌, ◌≡◌, refl, List, [], ◌∷◌, inl, every, arith}
use gotth_jobs.Bytes.{bytes_eq}
use gotth_jobs.Values.Identifiers.{valid_lease_token}
use gotth_jobs.Table.Lookup.{put}
use gotth_jobs.Table.Update.{rows}
use gotth_jobs.Table.Statements.{Session, complete_sql, complete_row}
use gotth_jobs.Postgres.{claim_statement, cancel_statement, complete_statement, redrive_statement}
use gotth_jobs.Engine.{Statement, job_statement, run}
use gotth_jobs.Engine.Exclusive.{acknowledged_in_time}
use gotth_jobs.Engine.Deliveries.{deliveries, deliveries_end}
use gotth_jobs.Examples.{id_a, id_b, token_a, token_b, at, mail, worker, running_job, two_jobs}
use gotth_jobs.Examples.Jobs.{two_jobs-IsConsistent}

-- Others claim, complete and cancel while the lease of the running job lasts, until time 50.
abbrev others : List (Session × Statement)
others =
    (at 20, job_statement (claim_statement mail token_a worker (pos 100)))
    ∷ (at 21, job_statement (complete_statement id_b token_a))
    ∷ (at 22, job_statement (cancel_statement id_a))
    ∷ (at 23, job_statement (redrive_statement id_b))
    ∷ []

acknowledged_in_time_example : complete_sql (at 49) id_b token_b (run two_jobs others) ≡ (
  rows (complete_row (at 49) running_job ∷ []),
  put (complete_row (at 49) running_job) (run two_jobs others),
)
unfolding valid_lease_token every gotth_jobs.Bytes.is_hex_digit bytes_eq
acknowledged_in_time_example =
    acknowledged_in_time two_jobs others running_job 50 (at 49) token_b two_jobs-IsConsistent
      (inl refl) (refl, refl) refl
      (
        ((refl, refl), omega arith, refl),
        ((tt, omega arith, refl), ((tt, omega arith, refl), ((tt, omega arith, refl), tt))),
      )
      (omega arith)

-- Two claims of the job, whose first lease has run out by the time of each.
abbrev claims : List (Session × Statement)
claims =
    (at 60, job_statement (claim_statement mail token_a worker (pos 100)))
    ∷ (at 170, job_statement (claim_statement mail token_b worker (pos 100)))
    ∷ []

deliveries_end_example : deliveries id_b two_jobs claims + 1 ≤ 2
unfolding valid_lease_token every gotth_jobs.Bytes.is_hex_digit
deliveries_end_example =
    deliveries_end two_jobs claims running_job (((refl, refl), refl), (((refl, refl), refl), tt))
      two_jobs-IsConsistent (inl refl)
