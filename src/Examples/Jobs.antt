-- ===== src/Examples/Jobs.antt =====
-- The theorems about the statements and the table at concrete rows.
use gotth_jobs.Values.Identifiers.{valid_lease_token}
use mathlib.Core.Bool.{false≢true}
use gotth_jobs.Common.{
  pos, ◌≡◌, refl, true, false, none, some, List, [], ◌∷◌, inl, ap, In, every, ◌≢◌, not, ◌||◌, sym,
}
use gotth_jobs.Bytes.{bytes_le-IsOrder, bytes_eq, codes}
use gotth_jobs.Types.{succeeded}
use gotth_jobs.Table.{Row, Table, IsConsistent, satisfies_checks}
use gotth_jobs.Table.Update.{rows}
use gotth_jobs.Table.Statements.{Session, complete_sql, heartbeat_sql, fail_sql}
use gotth_jobs.Table.Statements.Claim.{claim_sql, claim_row, ordered, due_at}
use gotth_jobs.Table.Statements.Fencing.{claim_fences}
use gotth_jobs.Table.Statements.Order.{eligible, claim_least}
use gotth_jobs.Postgres.{claim_statement, complete_statement, cancel_statement}
use gotth_jobs.Engine.{Statement, job_statement, run, execute}
use gotth_jobs.Table.Statements.Consistency.{Accepted}
use gotth_jobs.Engine.Consistency.{execute-Accepted}
use gotth_jobs.Engine.Unchecked.{run_unchecked, run_unchecked-IsConsistent}
use gotth_jobs.Engine.Evolution.{FindsEvolved, execute-FindsEvolved, run_final}
use gotth_jobs.Examples.{id_a, id_b, token_a, token_b, at, mail, worker, running_job, two_jobs}

pub ids_differ : id_b ≢ id_a
unfolding bytes_eq
ids_differ e = false≢true (ap (λ i. bytes_eq i id_a) e)

tokens_differ : token_a ≢ token_b
unfolding bytes_eq
tokens_differ e = false≢true (sym (ap (λ i. bytes_eq i token_a) e))

pub two_jobs-IsConsistent : IsConsistent two_jobs
unfolding satisfies_checks every gotth_jobs.Table.fixed_checks
    gotth_jobs.Values.Identifiers.valid_job_id gotth_jobs.Bytes.is_hex_digit valid_lease_token
two_jobs-IsConsistent = record { checked = refl; unique = ((ids_differ, tt), (tt, tt)) }

-- The job with the older lease is claimed at time 60, under a new token.
abbrev reclaimed : Row
reclaimed = record running_job {
  attempts = 2;
  lease_token = some token_a;
  lease_owner = some worker;
  lease_until = some 160;
  updated_at = 60;
  last_error = codes "lease expired before acknowledgement";
}

-- The pending job is older, so the running one is claimed only when it is alone.
reclaims :
    claim_sql (at 60) mail token_a worker (pos 100) (running_job ∷ [])
    ≡ (rows (reclaimed ∷ []), reclaimed ∷ [])
unfolding claim_sql bytes_eq satisfies_checks gotth_jobs.Table.fixed_checks
    gotth_jobs.Values.Identifiers.valid_job_id gotth_jobs.Bytes.is_hex_digit valid_lease_token
reclaims = refl

one_job-IsConsistent : IsConsistent (running_job ∷ [])
unfolding satisfies_checks every gotth_jobs.Table.fixed_checks
    gotth_jobs.Values.Identifiers.valid_job_id gotth_jobs.Bytes.is_hex_digit valid_lease_token
one_job-IsConsistent = record { checked = refl; unique = (tt, tt) }

claim_fences_example :
    (heartbeat_sql (at 70) id_b token_b (pos 9) (reclaimed ∷ []) ≡ (rows [], reclaimed ∷ []))
    × (complete_sql (at 70) id_b token_b (reclaimed ∷ []) ≡ (rows [], reclaimed ∷ []))
    × (fail_sql (at 70) id_b token_b [] false (pos 0) (reclaimed ∷ []) ≡ (rows [], reclaimed ∷ []))
unfolding valid_lease_token every gotth_jobs.Bytes.is_hex_digit
claim_fences_example =
    claim_fences (at 60) mail token_a worker (pos 100) (running_job ∷ []) (reclaimed ∷ [])
      (reclaimed ∷ []) reclaimed (at 70) token_b [] false (pos 0) (pos 9) one_job-IsConsistent refl
      refl reclaims (inl refl) tokens_differ

claim_least_example :
    (c : Row) × In c two_jobs
    × (eligible (at 60) mail c ≡ true)
    × ((claim_sql (at 60) mail token_a worker (pos 100) two_jobs).0
        ≡ rows (claim_row (at 60) token_a worker (pos 100) c ∷ []))
    × (every (λ x. not (eligible (at 60) mail x) || ordered (at 60) due_at c x) two_jobs ≡ true)
unfolding eligible valid_lease_token every gotth_jobs.Bytes.is_hex_digit bytes_eq
claim_least_example =
    claim_least (at 60) mail token_a worker (pos 100) two_jobs running_job two_jobs-IsConsistent
      refl refl bytes_le-IsOrder (inl refl) refl

execute-Accepted_example :
    Accepted
      (execute (at 60) (job_statement (claim_statement mail token_a worker (pos 100))) two_jobs)
unfolding valid_lease_token every gotth_jobs.Bytes.is_hex_digit
execute-Accepted_example =
    execute-Accepted (at 60) (job_statement (claim_statement mail token_a worker (pos 100)))
      two_jobs refl (refl, refl) two_jobs-IsConsistent

-- The running job is completed in time, and its completion is repeated.
abbrev history : List (Session × Statement)
history =
    (at 20, job_statement (complete_statement id_b token_b))
    ∷ (at 21, job_statement (complete_statement id_b token_b))
    ∷ (at 22, job_statement (cancel_statement id_a))
    ∷ []

run_unchecked-IsConsistent_example :
    IsConsistent (run_unchecked two_jobs history)
    × (run_unchecked two_jobs history ≡ run two_jobs history)
run_unchecked-IsConsistent_example =
    run_unchecked-IsConsistent two_jobs history (tt, (tt, (tt, tt))) two_jobs-IsConsistent

execute-FindsEvolved_example :
    FindsEvolved running_job
      (execute (at 20) (job_statement (complete_statement id_b token_b)) two_jobs).1
execute-FindsEvolved_example =
    execute-FindsEvolved (at 20) (job_statement (complete_statement id_b token_b)) two_jobs
      running_job two_jobs-IsConsistent (inl refl)

abbrev done_job : Row
done_job = record running_job {
  state = succeeded;
  lease_token = none;
  lease_owner = none;
  lease_until = none;
  finished_at = some 20;
}

done-IsConsistent : IsConsistent (done_job ∷ [])
unfolding satisfies_checks every gotth_jobs.Table.fixed_checks
    gotth_jobs.Values.Identifiers.valid_job_id gotth_jobs.Bytes.is_hex_digit
done-IsConsistent = record { checked = refl; unique = (tt, tt) }

run_final_example :
    (x : Row) × In x (run (done_job ∷ []) history)
    × (x.id ≡ done_job.id)
    × (x.state ≡ done_job.state)
    × (x.attempts ≡ done_job.attempts)
run_final_example =
    run_final (done_job ∷ []) history done_job (tt, (tt, (tt, tt))) done-IsConsistent (inl refl)
      (inl refl)
