-- ===== src/Examples/Enqueuing.antt =====
-- The refinement of Enqueue at a concrete request and table.
use gotth_jobs.Common.{
  pos, ◌≡◌, ◌≢◌, refl, none, some, [], ◌∷◌, every, length, replicate, ◌%◌, arith,
}
use gotth_jobs.Bytes.{Bytes, codes, bytes_eq_iff, bytes_eq}
use gotth_jobs.Types.{EnqueueRequest, zero_time}
use gotth_jobs.Rows.{bad_text}
use gotth_jobs.Values.{validate_enqueue, clone_enqueue}
use gotth_jobs.Values.Fingerprint.{request_fingerprint}
use gotth_jobs.Values.Identifiers.{new_opaque_id}
use gotth_jobs.Table.Decoded.{IsReadable}
use gotth_jobs.Table.Statements.{new_row}
use gotth_jobs.Lifecycle.Refinement.Transaction.{Performs, Leaves}
use gotth_jobs.Enqueue.{enqueue, enqueue_tx}
use gotth_jobs.Enqueue.Refinement.Joined.{isolated_offer, enqueue_tx-Leaves}
use gotth_jobs.Examples.Server.{Server, server}
use gotth_jobs.Enqueue.Refinement.{requested, offer}
use gotth_jobs.Enqueue.Refinement.Calls.{enqueue-Performs}
use gotth_jobs.Examples.{at, running_job, id_b}
use gotth_jobs.Examples.Decoding.{running-IsReadable}
use gotth_jobs.Examples.Serving.{still, refusal, still-Serves, one_job, one_job-IsConsistent}

abbrev asked : EnqueueRequest
asked = record {
  queue = codes "mail";
  kind = codes "send";
  payload = some (codes "{}");
  idempotency_key = codes "k";
  max_attempts = pos 3;
  available_at = zero_time;
}

-- A stand-in for SHA-256 with results of its length.
abbrev digest : Bytes → Bytes
digest b = length b % 256 ∷ replicate 31 0

abbrev entropy : Bytes
entropy = replicate 16 1

asked_valid : validate_enqueue asked ≡ none
unfolding validate_enqueue every gotth_jobs.Values.validate_name gotth_jobs.Values.is_name_byte
    gotth_jobs.Values.slice_length gotth_jobs.Bytes.contains_nul gotth_jobs.Values.Utf8.valid_utf8
    gotth_jobs.Values.is_zero
asked_valid = refl

asked_fresh : (new_opaque_id entropy none).0 ≢ id_b
unfolding new_opaque_id bytes_eq
asked_fresh e = cc ((bytes_eq_iff (new_opaque_id entropy none).0 id_b).1 e)

asked-IsReadable : IsReadable (
    requested
      (at 20)
      asked
      (new_opaque_id entropy none).0
      (request_fingerprint digest (clone_enqueue asked)))
unfolding every bad_text gotth_jobs.Values.is_name_byte gotth_jobs.Values.is_postgresql_timestamp
    gotth_jobs.Values.is_zero gotth_jobs.Values.before gotth_jobs.Values.Utf8.valid_utf8
    gotth_jobs.Table.to_time gotth_jobs.Bytes.contains_nul new_row
    gotth_jobs.Enqueue.available_argument
asked-IsReadable = record {
  queue = refl;
  kind = refl;
  key = refl;
  owner = refl;
  last = refl;
  available = refl;
  created = refl;
  updated = refl;
  until = tt;
  finished = tt;
}

enqueue-Performs_example :
    Performs
      (λ s. s.stored)
      (enqueue digest
        (some (record { database = some still }))
        (some (record { err = none }))
        asked
        entropy
        none
        one_job)
      (offer
        (requested
          (at 20)
          asked
          (new_opaque_id entropy none).0
          (request_fingerprint digest (clone_enqueue asked)))
        (running_job ∷ []))
unfolding still-Serves
enqueue-Performs_example =
    enqueue-Performs digest (λ b. refl) still (at 20) refusal still-Serves (record { err = none })
      asked asked_valid entropy (omega arith) refl one_job one_job-IsConsistent (asked_fresh, tt)
      asked-IsReadable (running-IsReadable, tt)

-- A transaction of the caller that has not changed anything yet.
abbrev joined : Server
joined = record one_job { working = some (running_job ∷ []) }

enqueue_tx-Leaves_example :
    Leaves still
      (at 20)
      refusal
      still-Serves
      (enqueue_tx digest
        (some (record { database = some still }))
        (some (record { err = none }))
        (some still)
        asked
        entropy
        none
        joined)
      (running_job ∷ [])
      (isolated_offer
        (codes "read committed")
        (requested
          (at 20)
          asked
          (new_opaque_id entropy none).0
          (request_fingerprint digest (clone_enqueue asked)))
        (running_job ∷ [])).0
      (isolated_offer
        (codes "read committed")
        (requested
          (at 20)
          asked
          (new_opaque_id entropy none).0
          (request_fingerprint digest (clone_enqueue asked)))
        (running_job ∷ [])).1
unfolding still-Serves server
enqueue_tx-Leaves_example =
    enqueue_tx-Leaves digest (λ b. refl) still (at 20) refusal still-Serves asked asked_valid
      entropy (omega arith) refl joined (running_job ∷ []) refl one_job-IsConsistent
      (asked_fresh, tt) asked-IsReadable (running-IsReadable, tt) still (record { err = none })
      (codes "read committed") refl
