-- ===== src/Examples/Reads.antt =====
-- The theorems about pages of dead letters and about counts at concrete tables.
use gotth_jobs.Common.{pos, ◌≡◌, refl, none, some, [], ◌∷◌, length, select, every, arith}
use gotth_jobs.Bytes.{bytes_eq, bytes_le-IsOrder, bytes_le_antisym}
use gotth_jobs.Types.{pending, running, succeeded, dead, canceled}
use gotth_jobs.Errors.{ok}
use gotth_jobs.Table.{Row, Table, IsConsistent, satisfies_checks}
use gotth_jobs.Table.Statements.Reads.{list_dead_sql, count_state, counts_sql}
use gotth_jobs.Table.Statements.Pages.{dead_letters, pages_continue}
use gotth_jobs.Operations.{counted}
use gotth_jobs.Operations.Counting.{counted-counts_sql, five_counts}
use gotth_jobs.Examples.{id_b, at, mail, pending_job, two_jobs}
use gotth_jobs.Examples.Jobs.{ids_differ, two_jobs-IsConsistent}

abbrev pub late : Row
late = record pending_job { state = dead; attempts = 2; finished_at = some 90 }

abbrev pub early : Row
early = record late { id = id_b; finished_at = some 80 }

pub dead-IsConsistent : IsConsistent (early ∷ late ∷ [])
unfolding satisfies_checks every gotth_jobs.Table.fixed_checks
    gotth_jobs.Values.Identifiers.valid_job_id gotth_jobs.Bytes.is_hex_digit
dead-IsConsistent = record { checked = refl; unique = ((ids_differ, tt), (tt, tt)) }

ordered_dead : dead_letters (at 100) mail (early ∷ late ∷ []) ≡ early ∷ late ∷ []
unfolding dead_letters bytes_eq
ordered_dead = refl

pages_continue_example :
    (list_dead_sql (at 100) mail none [] (pos 1) (early ∷ late ∷ []) ≡ early ∷ [])
    × (list_dead_sql (at 100) mail (some 80) id_b (pos 1) (early ∷ late ∷ []) ≡ late ∷ [])
pages_continue_example =
    pages_continue (at 100) bytes_le-IsOrder bytes_le_antisym mail (early ∷ late ∷ [])
      dead-IsConsistent [] early (late ∷ []) ordered_dead [] 1

in_mail : select (λ r. bytes_eq r.queue mail) two_jobs ≡ two_jobs
unfolding select bytes_eq
in_mail = refl

counted-counts_sql_example :
    (counted (ok (counts_sql mail two_jobs)) ≡ (
      record {
        pending = pos (count_state pending (select (λ r. bytes_eq r.queue mail) two_jobs));
        running = pos (count_state running (select (λ r. bytes_eq r.queue mail) two_jobs));
        succeeded = pos (count_state succeeded (select (λ r. bytes_eq r.queue mail) two_jobs));
        dead = pos (count_state dead (select (λ r. bytes_eq r.queue mail) two_jobs));
        canceled = pos (count_state canceled (select (λ r. bytes_eq r.queue mail) two_jobs));
      },
      none,
    ))
    × (five_counts (select (λ r. bytes_eq r.queue mail) two_jobs)
        ≡ length (select (λ r. bytes_eq r.queue mail) two_jobs))
counted-counts_sql_example =
    counted-counts_sql mail two_jobs two_jobs-IsConsistent (rw in_mail (omega arith))
