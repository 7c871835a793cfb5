-- ===== src/Enqueue/Refinement/Calls.antt =====
-- Enqueue as a whole: the transaction around the offer of a row.
use gotth_jobs.Common.{
  ◌∙◌, All-at, ◌≡◌, refl, true, Option, none, some, length, All, inl, inr, Bool-cases, ◌==◌,
}
use gotth_jobs.Bytes.{Bytes, bytes_eq}
use gotth_jobs.Types.{EnqueueRequest}
use gotth_jobs.Errors.{Err, sentinel, idempotency_conflict}
use gotth_jobs.Values.{validate_enqueue, clone_enqueue, prepare_enqueue}
use gotth_jobs.Values.Fingerprint.{request_fingerprint}
use gotth_jobs.Values.Identifiers.{
  valid_job_id, new_opaque_id, new_opaque_id_valid, AreBytes, job_id_size,
}
use gotth_jobs.Table.{Row, IsConsistent, HasNewId}
use gotth_jobs.Table.Decoded.{IsReadable}
use gotth_jobs.Table.Statements.{Session, conflicts}
use gotth_jobs.Postgres.{Context, Database}
use gotth_jobs.Engine.Serving.{Serves}
use gotth_jobs.Lifecycle.Refinement.Transaction.{Performs, transact_stores, transact_forgets}
use gotth_jobs.Enqueue.{no_result, enqueue_prepared, enqueue}
use gotth_jobs.Enqueue.Refinement.{first_where, requested, offered, offer}
use gotth_jobs.Enqueue.Refinement.Insertion.{first_where-some}
use gotth_jobs.Enqueue.Refinement.Offers.{enqueue_prepared-new, enqueue_prepared-found}

module _ {S : Type 0} (sha256 : Bytes → Bytes) (hashes : (b : Bytes) → length (sha256 b) ≡ 32)
    (database : Database S) (session : Session) (refused : Err)
    (serves : Serves database session refused) (ctx : Context) (request : EnqueueRequest)
    (valid : validate_enqueue request ≡ none) (entropy : Bytes) (bytes : AreBytes entropy)
    (sized : (length entropy == job_id_size) ≡ true) (s : S) (c : IsConsistent (serves.committed s))
    (fresh : HasNewId (new_opaque_id entropy none).0 (serves.committed s))
    (readable : IsReadable (
      requested session request
        (new_opaque_id entropy none).0
        (request_fingerprint sha256 (clone_enqueue request))))
    (all : All IsReadable (serves.committed s)) where
  abbrev new_id : Bytes
  new_id = (new_opaque_id entropy none).0

  abbrev wanted : Row
  wanted = requested session request new_id (request_fingerprint sha256 (clone_enqueue request))

  well_formed : valid_job_id new_id ≡ true
  well_formed = (new_opaque_id_valid entropy bytes).0 ∙ sized

  enqueue-offered :
      (o : Option Row)
      → first_where (conflicts wanted) (serves.committed s) ≡ o
      → Performs serves.committed
          (enqueue sha256
            (some (record { database = some database }))
            (some ctx)
            request
            entropy
            none
            s)
          (offered wanted (serves.committed s) o)
  unfolding enqueue prepare_enqueue offered new_opaque_id
  enqueue-offered none e =
      let (_, below, copy) = serves.begins s in
      let stored =
        enqueue_prepared-new sha256 hashes database session refused serves request valid new_id
          well_formed (database.begin_tx s).1 (serves.committed s) copy c fresh e readable in
      rw valid (
        transact_stores database session refused serves no_result _ ctx
          (enqueue_prepared sha256 database (clone_enqueue request) (new_id, none)) s _
          (rw below at stored))
  enqueue-offered (some r) e =
      let (_, below, copy) = serves.begins s in
      let (m, _, _) = first_where-some (conflicts wanted) (serves.committed s) r e in
      let left = rw below at (
        enqueue_prepared-found sha256 hashes database session refused serves request valid new_id
          well_formed (database.begin_tx s).1 (serves.committed s) copy c fresh r e
          (All-at IsReadable (serves.committed s) r all m)) in
      elim (Bool-cases (bytes_eq r.request_fingerprint wanted.request_fingerprint)) [
        | inl b ↦
            rw (valid, b)
              (transact_stores database session refused serves no_result _ ctx
                (enqueue_prepared sha256 database (clone_enqueue request) (new_id, none)) s _
                (rw b at left))
        | inr b ↦
            rw (valid, b)
              (transact_forgets database session refused serves no_result no_result
                (sentinel idempotency_conflict) ctx
                (enqueue_prepared sha256 database (clone_enqueue request) (new_id, none)) s _
                (rw b at left))
      ]

  -- On a database that serves it undisturbed, with a consistent and readable table, Enqueue of a valid
  -- request whose random identifier is new does what the abstract offer does: it stores the row of the
  -- request and answers its job with created=true, or, if there is a row of the same queue and
  -- idempotency key, stores nothing and answers the job of that row with created=false if the
  -- fingerprints agree, and ErrIdempotencyConflict if they do not.
  pub enqueue-Performs :
      Performs serves.committed
        (enqueue sha256
          (some (record { database = some database }))
          (some ctx)
          request
          entropy
          none
          s)
        (offer wanted (serves.committed s))
  unfolding offer
  enqueue-Performs = enqueue-offered (first_where (conflicts wanted) (serves.committed s)) refl
