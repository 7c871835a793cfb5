-- ===== src/Lifecycle/Refinement/Claiming.antt =====
-- Claim as a whole: up to 100 jobs whose last attempt has expired are buried, and the first candidate is
-- handed out.
use gotth_jobs.Common.{
  ◌≡◌, refl, ap, ◌∙◌, true, Option, none, some, List, [], ◌∷◌, All, All-at, take, length, ◌==◌,
}
use gotth_jobs.Bytes.{Bytes}
use gotth_jobs.Types.{Job, ClaimRequest, zero_job}
use gotth_jobs.Errors.{Err, sentinel, no_job, is}
use gotth_jobs.Values.{validate_claim}
use gotth_jobs.Values.Identifiers.{
  new_opaque_id, new_opaque_id_valid, AreBytes, lease_token_size, valid_lease_token,
}
use gotth_jobs.Table.{Row, Table, IsConsistent}
use gotth_jobs.Table.Decoded.{job_of, IsReadable}
use gotth_jobs.Table.Lookup.{put}
use gotth_jobs.Table.Update.{Answer}
use gotth_jobs.Table.Statements.{Session}
use gotth_jobs.Table.Statements.Claim.{claim_row, candidate_rows}
use gotth_jobs.Table.Statements.Claiming.{buried, candidate_in, claim_sql-none, claim_sql-one}
use gotth_jobs.Postgres.{Context, Database, claim_statement}
use gotth_jobs.Engine.{execute_job}
use gotth_jobs.Engine.Serving.{Serves}
use gotth_jobs.Engine.Serving.Updates.{row_read, no_row_read}
use gotth_jobs.Engine.Legal.{claim_legal}
use gotth_jobs.Lifecycle.{no_claim, claimed, claim_one, claim, claim_valid, microseconds}
use gotth_jobs.Lifecycle.Refinement.Transaction.{Performs, Leaves, transact_stores}

-- The row that a claim writes.
abbrev pub handed : Session → ClaimRequest → Bytes → Row → Row
handed session request token =
    claim_row session token request.worker (microseconds request.lease_duration)

-- With a candidate its job is handed out; without one the burials are kept, and the error is ErrNoJob.
unfoldable pub dispensed :
    Session → ClaimRequest → Bytes → Table → List Row → (Job × Option Err) × Table
unfolding buried
dispensed session request token t [] =
    ((zero_job, some (sentinel no_job)), buried session request.queue t)
dispensed session request token t (r ∷ _) = (
  (job_of (handed session request token r), none),
  put (handed session request token r) (buried session request.queue t),
)

unfoldable pub dispense : Session → ClaimRequest → Bytes → Table → (Job × Option Err) × Table
unfolding dispensed candidate_rows
dispense session request token t =
    dispensed session request token t (candidate_rows session request.queue t)

take_one : (all : List Row) (r : Row) (l : List Row) → take 1 all ≡ r ∷ l → l ≡ []
take_one [] r l e = cc
take_one (x ∷ all) r l e = cc

pub one_candidate :
    (session : Session) (queue : Bytes) (t : Table) (r : Row) (l : List Row)
    → candidate_rows session queue t ≡ r ∷ l
    → l ≡ []
unfolding candidate_rows
one_candidate session queue t r l e = take_one _ r l e

module _ {S : Type 0} (database : Database S) (session : Session) (refused : Err)
    (serves : Serves database session refused) (request : ClaimRequest) (token : Bytes)
    (valid : validate_claim request ≡ none) (formed : valid_lease_token token ≡ true) (s : S)
    (t : Table) (open_copy : serves.copy s ≡ some t) (c : IsConsistent t) where
  claim_one-found :
      (r : Row)
      → candidate_rows session request.queue t ≡ r ∷ []
      → IsReadable (handed session request token r)
      → Leaves database session refused serves
          (claim_one database request token s)
          (serves.committed s)
          (record { job = job_of (handed session request token r); found = true }, none)
          (put (handed session request token r) (buried session request.queue t))
  unfolding claim_one execute_job claimed
  claim_one-found r e readable =
      let (done, inside, checked, _, _) =
        claim_sql-one session request.queue token request.worker
          (microseconds request.lease_duration) t c formed (claim_legal request valid) r e in
      let (row, below, copy) =
        serves.answers
          (claim_statement request.queue token request.worker (microseconds request.lease_duration))
          s t open_copy in
      record {
        answer =
            rw (row, done, row_read refused (handed session request token r) [] checked readable)
              refl;
        below = below;
        copy = copy ∙ ap (λ (y : Answer × Table). some y.1) done;
      }

  claim_one-none :
      candidate_rows session request.queue t ≡ []
      → Leaves database session refused serves
          (claim_one database request token s)
          (serves.committed s)
          (no_claim, none)
          (buried session request.queue t)
  unfolding claim_one execute_job claimed is
  claim_one-none e =
      let done =
        claim_sql-none session request.queue token request.worker
          (microseconds request.lease_duration) t c formed (claim_legal request valid) e in
      let (row, below, copy) =
        serves.answers
          (claim_statement request.queue token request.worker (microseconds request.lease_duration))
          s t open_copy in
      record {
        answer = rw (row, done, no_row_read refused) refl;
        below = below;
        copy = copy ∙ ap (λ (y : Answer × Table). some y.1) done;
      }

module _ {S : Type 0} (database : Database S) (session : Session) (refused : Err)
    (serves : Serves database session refused) (ctx : Context) (request : ClaimRequest)
    (valid : validate_claim request ≡ none) (token : Bytes)
    (formed : valid_lease_token token ≡ true) (s : S) (c : IsConsistent (serves.committed s))
    (readable : All (λ r. IsReadable (handed session request token r)) (serves.committed s)) where
  claim_valid-dispensed :
      (l : List Row)
      → candidate_rows session request.queue (serves.committed s) ≡ l
      → Performs serves.committed
          (claim_valid database (some ctx) request token s)
          (dispensed session request token (serves.committed s) l)
  unfolding claim_valid dispensed
  claim_valid-dispensed [] e =
      let (_, below, copy) = serves.begins s in
      let left = rw below at (
        claim_one-none database session refused serves request token valid formed
          (database.begin_tx s).1 (serves.committed s) copy c e) in
      let (answer, table) =
        transact_stores database session refused serves no_claim no_claim ctx
          (claim_one database request token) s (buried session request.queue (serves.committed s))
          left in
      (rw answer refl, table)
  claim_valid-dispensed (r ∷ l) e =
      let (_, below, copy) = serves.begins s in
      let only =
        e
        ∙ ap (λ (rest : List Row). r ∷ rest)
            (one_candidate session request.queue (serves.committed s) r l e) in
      let inside = candidate_in session request.queue (serves.committed s) r only in
      let left = rw below at (
        claim_one-found database session refused serves request token valid formed
          (database.begin_tx s).1 (serves.committed s) copy c r only
          (All-at (λ y. IsReadable (handed session request token y)) (serves.committed s) r readable
            inside)) in
      let (answer, table) =
        transact_stores database session refused serves no_claim
          (record { job = job_of (handed session request token r); found = true }) ctx
          (claim_one database request token) s
          (put (handed session request token r) (buried session request.queue (serves.committed s)))
          left in
      (rw answer refl, table)

-- On a database that serves it undisturbed, with a consistent table each of whose rows would be readable
-- once claimed, Claim of a valid request with 32 bytes of entropy buries the first 100 unlocked jobs
-- whose last attempt has expired and hands out the first candidate under a new token: it answers the
-- claimed job and commits its row. Without a candidate it commits the burials all the same, and the
-- error is ErrNoJob.
pub claim-Performs :
    {S : Type 0} (database : Database S) (session : Session) (refused : Err)
    (serves : Serves database session refused) (ctx : Context) (request : ClaimRequest)
    (entropy : Bytes) (s : S)
    → validate_claim request ≡ none
    → AreBytes entropy
    → (length entropy == lease_token_size) ≡ true
    → IsConsistent (serves.committed s)
    → All
        (λ r. IsReadable (handed session request (new_opaque_id entropy none).0 r))
        (serves.committed s)
    → Performs serves.committed
        (claim (some (record { database = some database })) (some ctx) request entropy none s)
        (dispense session request (new_opaque_id entropy none).0 (serves.committed s))
unfolding claim dispense new_opaque_id
claim-Performs database session refused serves ctx request entropy s valid bytes sized c readable =
    let formed = (new_opaque_id_valid entropy bytes).1 ∙ sized in
    rw (valid, formed, valid)
      (claim_valid-dispensed database session refused serves ctx request valid
        (new_opaque_id entropy none).0 formed s c readable
        (candidate_rows session request.queue (serves.committed s)) refl)
