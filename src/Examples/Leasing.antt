-- ===== src/Examples/Leasing.antt =====
-- The refinements of Claim and Heartbeat on a concrete database with a fixed clock.
use gotth_jobs.Common.{pos, ◌≡◌, refl, none, some, [], ◌∷◌, All, every, replicate, arith}
use gotth_jobs.Bytes.{Bytes}
use gotth_jobs.Types.{ClaimRequest}
use gotth_jobs.Rows.{bad_text}
use gotth_jobs.Values.{validate_claim, validate_lease_duration}
use gotth_jobs.Values.Identifiers.{new_opaque_id}
use gotth_jobs.Table.{Row, IsConsistent, satisfies_checks}
use gotth_jobs.Table.Decoded.{IsReadable}
use gotth_jobs.Table.Statements.Claim.{claim_row}
use gotth_jobs.Lifecycle.{claim, heartbeat, microseconds}
use gotth_jobs.Lifecycle.Refinement.Transaction.{Performs}
use gotth_jobs.Lifecycle.Refinement.Claiming.{handed, dispense, claim-Performs}
use gotth_jobs.Lifecycle.Refinement.Beating.{extension, heartbeat-Performs}
use gotth_jobs.Examples.{at, mail, worker, running_job, pending_job}
use gotth_jobs.Examples.Calls.{idle}
use gotth_jobs.Examples.Server.{Server}
use gotth_jobs.Examples.Serving.{
  still, refusal, still-Serves, one_job, one_job-IsConsistent, lease_b, lease_b_valid,
}

-- A job that waits, and a request for its queue.
abbrev pub waiting : Server
waiting = record idle { stored = pending_job ∷ [] }

pub pending_job-IsConsistent : IsConsistent (pending_job ∷ [])
unfolding satisfies_checks every gotth_jobs.Table.fixed_checks
    gotth_jobs.Values.Identifiers.valid_job_id gotth_jobs.Bytes.is_hex_digit
pending_job-IsConsistent = record { checked = refl; unique = (tt, tt) }

abbrev wish : ClaimRequest
wish = record { queue = mail; worker = worker; lease_duration = pos 5000000000 }

wish_valid : validate_claim wish ≡ none
unfolding validate_claim every gotth_jobs.Values.validate_name gotth_jobs.Values.is_name_byte
    gotth_jobs.Bytes.contains_nul gotth_jobs.Values.Utf8.valid_utf8 validate_lease_duration
wish_valid = refl

abbrev seed : Bytes
seed = replicate 32 1

handed-IsReadable :
    All (λ r. IsReadable (handed (at 20) wish (new_opaque_id seed none).0 r)) (pending_job ∷ [])
unfolding every bad_text gotth_jobs.Values.is_name_byte gotth_jobs.Values.is_postgresql_timestamp
    gotth_jobs.Values.is_zero gotth_jobs.Values.before gotth_jobs.Values.Utf8.valid_utf8
    gotth_jobs.Table.to_time gotth_jobs.Bytes.contains_nul claim_row
handed-IsReadable = (
  record {
    queue = refl;
    kind = refl;
    key = refl;
    owner = refl;
    last = refl;
    available = refl;
    created = refl;
    updated = refl;
    until = refl;
    finished = tt;
  },
  tt,
)

claim-Performs_example :
    Performs
      (λ s. s.stored)
      (claim
        (some (record { database = some still }))
        (some (record { err = none }))
        wish
        seed
        none
        waiting)
      (dispense (at 20) wish (new_opaque_id seed none).0 (pending_job ∷ []))
unfolding still-Serves
claim-Performs_example =
    claim-Performs still (at 20) refusal still-Serves (record { err = none }) wish seed waiting
      wish_valid (omega arith) refl pending_job-IsConsistent handed-IsReadable

five_seconds : validate_lease_duration (pos 5000000000) ≡ none
unfolding validate_lease_duration
five_seconds = refl

heartbeat-Performs_example :
    Performs
      (λ s. s.stored)
      (heartbeat
        (some (record { database = some still }))
        (some (record { err = none }))
        lease_b
        (pos 5000000000)
        one_job)
      (extension (at 20) lease_b (microseconds (pos 5000000000)) (running_job ∷ []))
unfolding still-Serves
heartbeat-Performs_example =
    heartbeat-Performs still (at 20) refusal still-Serves (record { err = none }) lease_b
      (pos 5000000000) one_job one_job-IsConsistent lease_b_valid five_seconds
