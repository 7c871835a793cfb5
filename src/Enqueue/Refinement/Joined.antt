-- ===== src/Enqueue/Refinement/Joined.antt =====
-- EnqueueTx: the offer of a row inside the caller's transaction, which it neither commits nor ends.
use gotth_jobs.Common.{
  ◌≡◌, refl, ◌∙◌, true, Option, none, some, length, All, All-at, inl, inr, Bool-cases, ◌==◌,
  if◌then◌else◌,
}
use gotth_jobs.Bytes.{Bytes, bytes_eq, codes}
use gotth_jobs.Types.{EnqueueRequest}
use gotth_jobs.Errors.{Err, ok, invalid_error}
use gotth_jobs.Values.{validate_enqueue, clone_enqueue}
use gotth_jobs.Values.Fingerprint.{request_fingerprint}
use gotth_jobs.Values.Identifiers.{new_opaque_id, new_opaque_id_valid, AreBytes, job_id_size}
use gotth_jobs.Table.{Row, Table, IsConsistent, HasNewId}
use gotth_jobs.Table.Decoded.{IsReadable}
use gotth_jobs.Table.Statements.{Session, conflicts}
use gotth_jobs.Postgres.{Context, Database}
use gotth_jobs.Engine.Serving.{Serves}
use gotth_jobs.Lifecycle.{usable}
use gotth_jobs.Lifecycle.Refinement.Transaction.{Leaves}
use gotth_jobs.Enqueue.{
  EnqueueResult, no_result, enqueue_prepared, enqueue_joined, isolation_error, joined_with,
  enqueue_tx,
}
use gotth_jobs.Enqueue.Refinement.{first_where, requested, offered, offer}
use gotth_jobs.Enqueue.Refinement.Insertion.{first_where-some}
use gotth_jobs.Enqueue.Refinement.Offers.{
  enqueue_prepared-new, enqueue_prepared-found, offered_table,
}

-- The offer is made only at Read Committed.
unfoldable pub isolated_offer : Bytes → Row → Table → (EnqueueResult × Option Err) × Table
unfolding offer
isolated_offer isolation new t =
    if bytes_eq isolation (codes "read committed")
    then offer new t
    else ((no_result, some (invalid_error "EnqueueTx requires Read Committed isolation")), t)

module _ {S : Type 0} (sha256 : Bytes → Bytes) (hashes : (b : Bytes) → length (sha256 b) ≡ 32)
    (transaction : Database S) (session : Session) (refused : Err)
    (serves : Serves transaction session refused) (request : EnqueueRequest)
    (valid : validate_enqueue request ≡ none) (entropy : Bytes) (bytes : AreBytes entropy)
    (sized : (length entropy == job_id_size) ≡ true) (s : S) (t : Table)
    (open_copy : serves.copy s ≡ some t) (c : IsConsistent t)
    (fresh : HasNewId (new_opaque_id entropy none).0 t)
    (readable : IsReadable (
      requested session request
        (new_opaque_id entropy none).0
        (request_fingerprint sha256 (clone_enqueue request))))
    (all : All IsReadable t) where
  abbrev new_id : Bytes
  new_id = (new_opaque_id entropy none).0

  abbrev wanted : Row
  wanted = requested session request new_id (request_fingerprint sha256 (clone_enqueue request))

  prepared-offered :
      (o : Option Row)
      → first_where (conflicts wanted) t ≡ o
      → Leaves transaction session refused serves
          (enqueue_prepared sha256 transaction (clone_enqueue request) (new_id, none) s)
          (serves.committed s)
          (offered wanted t o).0
          (offered wanted t o).1
  prepared-offered none e =
      unfold offered in
      enqueue_prepared-new sha256 hashes transaction session refused serves request valid new_id
        ((new_opaque_id_valid entropy bytes).0 ∙ sized) s t open_copy c fresh e readable
  prepared-offered (some r) e =
      let (m, _, _) = first_where-some (conflicts wanted) t r e in
      rw (offered_table wanted t r) (
        enqueue_prepared-found sha256 hashes transaction session refused serves request valid new_id
          ((new_opaque_id_valid entropy bytes).0 ∙ sized) s t open_copy c fresh r e
          (All-at IsReadable t r all m))

  -- In a transaction of the caller that is served undisturbed, on a consistent and readable copy,
  -- EnqueueTx of a valid request with a new identifier does what the abstract offer does to the
  -- transaction's copy, and leaves the committed table alone; at any isolation but Read Committed the
  -- copy stays too, and the error is ErrInvalid.
  pub enqueue_tx-Leaves :
      (database : Database S) (ctx : Context) (isolation : Bytes)
      → transaction.query_isolation s ≡ (ok isolation, s)
      → Leaves transaction session refused serves
          (enqueue_tx sha256
            (some (record { database = some database }))
            (some ctx)
            (some transaction)
            request
            entropy
            none
            s)
          (serves.committed s)
          (isolated_offer isolation wanted t).0
          (isolated_offer isolation wanted t).1
  unfolding enqueue_tx joined_with enqueue_joined isolation_error isolated_offer new_opaque_id
      usable offer
  enqueue_tx-Leaves database ctx isolation e =
      elim (Bool-cases (bytes_eq isolation (codes "read committed"))) [
        | inl h ↦ rw (valid, e, h) (prepared-offered (first_where (conflicts wanted) t) refl)
        | inr h ↦ rw (valid, e, h) (record { answer = refl; below = refl; copy = open_copy })
      ]
