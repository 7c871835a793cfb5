-- ===== src/Enqueue/Refinement/Offers.antt =====
-- Enqueue does to the committed table what the abstract offer does, and answers the same.
use gotth_jobs.Common.{
  ◌≡◌, refl, sym, ◌∙◌, ap, true, false, ◌==◌, Option, none, some, [], ◌∷◌, length, select, every-in,
  inl, inr, Bool-cases, arith,
}
use gotth_jobs.Bytes.{Bytes, bytes_eq}
use gotth_jobs.Types.{EnqueueRequest, Job}
use gotth_jobs.Errors.{Err, Result, ok, failed, ◌>>=◌, sentinel, no_rows, is}
use gotth_jobs.Rows.{scan_job, scan_bounded, scan_job_with_fingerprint, RawRow}
use gotth_jobs.Values.{validate_enqueue, clone_enqueue, copied}
use gotth_jobs.Values.Fingerprint.{request_fingerprint}
use gotth_jobs.Values.Identifiers.{valid_job_id}
use gotth_jobs.Table.{Row, Table, IsConsistent, HasNewId, satisfies_checks, fixed_checks, columns}
use gotth_jobs.Table.Update.{Answer}
use gotth_jobs.Table.Decoded.{job_of, IsReadable}
use gotth_jobs.Table.Decoded.Scan.{scan_job-columns}
use gotth_jobs.Table.Statements.{Session, conflicts, new_row, insert_row}
use gotth_jobs.Table.Statements.Checks.{checked→}
use gotth_jobs.Postgres.{Database, JobStatement, enqueue_statement}
use gotth_jobs.Engine.{execute_job}
use gotth_jobs.Engine.Serving.Updates.{row_read, no_row_read}
use gotth_jobs.Engine.Serving.{Serves, keyed_row, keyed_by}
use gotth_jobs.Lifecycle.Refinement.Transaction.{Leaves}
use gotth_jobs.Enqueue.{EnqueueResult, compared, inserted, enqueue_prepared, available_argument}
use gotth_jobs.Enqueue.Refinement.{first_where, requested, offered}
use gotth_jobs.Enqueue.Refinement.Insertion.{
  first_where-some, keyed_row-select, conflicts-keyed_by, conflicts-key, insert_row-new,
  insert_row-conflict,
}
use gotth_jobs.Enqueue.Refinement.Valid.{requested-checked, execute_job-requested}

fingerprint_length : (r : Row) → satisfies_checks r ≡ true → length r.request_fingerprint ≡ 32
unfolding fixed_checks
fingerprint_length r h = let c = (checked→ r h).fixed in ground arith

-- The row of the key, as the fallback reads it.
key_read :
    (r : Row)
    → satisfies_checks r ≡ true
    → IsReadable r
    → scan_job_with_fingerprint (some r.request_fingerprint) (columns r)
      ≡ ok (r.request_fingerprint, job_of r)
unfolding scan_job_with_fingerprint
key_read r h readable =
    rw (bounded r.request_fingerprint (fingerprint_length r h), scan_job-columns r h readable) refl
  where
    bounded : (b : Bytes) → length b ≡ 32 → scan_bounded 32 32 (some b) ≡ ok b
    bounded b e = unfold scan_bounded in ground arith

-- The comparison of the fingerprints decides what the row of the key means.
compared-offered :
    (new : Row) (t : Table) (r : Row)
    → length r.request_fingerprint ≡ 32
    → length new.request_fingerprint ≡ 32
    → compared new.request_fingerprint (ok (r.request_fingerprint, job_of r))
      ≡ (offered new t (some r)).0
unfolding compared offered
compared-offered new t r a b =
    elim (Bool-cases (bytes_eq r.request_fingerprint new.request_fingerprint)) [
      | inl e ↦ rw (e, a, b) refl
      | inr e ↦ rw (e, a, b) refl
    ]

pub offered_table : (new : Row) (t : Table) (r : Row) → (offered new t (some r)).1 ≡ t
unfolding offered
offered_table new t r = elim (Bool-cases (bytes_eq r.request_fingerprint new.request_fingerprint)) [
  | inl e ↦ rw e refl
  | inr e ↦ rw e refl
]

module _ {S : Type 0} (sha256 : Bytes → Bytes) (database : Database S) (session : Session)
    (refused : Err) (serves : Serves database session refused) (request : EnqueueRequest) where
  inserted_answers :
      (x : Result Job) (job : Job) (s : S) (base t : Table)
      → x ≡ ok job
      → serves.committed s ≡ base
      → serves.copy s ≡ some t
      → Leaves database session refused serves
          (inserted sha256 database request x s)
          base
          (record { job = job; created = true }, none)
          t
  unfolding inserted
  inserted_answers (ok j) job s base t e b c = record { answer = cc e; below = b; copy = c }
  inserted_answers (failed err) job s base t e b c = cc

  inserted_falls_back :
      (x : Result Job) (s : S) (base t : Table) (result : EnqueueResult × Option Err)
      → x ≡ failed (sentinel no_rows)
      → (length request.idempotency_key == 0) ≡ false
      → serves.committed s ≡ base
      → serves.copy s ≡ some t
      → compared (request_fingerprint sha256 request) (
          keyed_row (select (keyed_by request.queue request.idempotency_key) t)
          >>= λ (fingerprint, found). scan_job_with_fingerprint fingerprint found)
        ≡ result
      → Leaves database session refused serves (inserted sha256 database request x s) base result t
  unfolding inserted is
  inserted_falls_back x s base t result e key b c k =
      let (found, below, copy) = serves.finds request.queue request.idempotency_key s t c in
      rw (e, key) record { answer = rw found k; below = below ∙ b; copy = copy }

key_result :
    (fingerprint : Bytes) (x : Result (Option Bytes × RawRow)) (r : Row)
    → x ≡ ok (some r.request_fingerprint, columns r)
    → satisfies_checks r ≡ true
    → IsReadable r
    → compared fingerprint (x >>= λ (stored, found). scan_job_with_fingerprint stored found)
      ≡ compared fingerprint (ok (r.request_fingerprint, job_of r))
key_result fingerprint x r e h readable = rw (e, key_read r h readable) refl

module _ {S : Type 0} (sha256 : Bytes → Bytes) (hashes : (b : Bytes) → length (sha256 b) ≡ 32)
    (database : Database S) (session : Session) (refused : Err)
    (serves : Serves database session refused) (request : EnqueueRequest)
    (valid : validate_enqueue request ≡ none) (id : Bytes) (well_formed : valid_job_id id ≡ true)
    (s : S) (t : Table) (open_copy : serves.copy s ≡ some t) (c : IsConsistent t)
    (fresh : HasNewId id t) where
  -- The row that this call asks for.
  abbrev wanted : Row
  wanted = requested session request id (request_fingerprint sha256 (clone_enqueue request))

  wanted-checked : satisfies_checks wanted ≡ true
  wanted-checked = requested-checked session request id _ valid well_formed (hash_length request)
    where
      hash_length :
          (r : EnqueueRequest) → length (request_fingerprint sha256 (clone_enqueue r)) ≡ 32
      hash_length r = unfold request_fingerprint in hashes _

  wanted_fresh : HasNewId wanted.id t
  unfolding new_row
  wanted_fresh = fresh

  wanted_hash : wanted.request_fingerprint ≡ request_fingerprint sha256 (clone_enqueue request)
  unfolding new_row
  wanted_hash = refl

  -- The INSERT of this call.
  abbrev sent : JobStatement
  sent =
      enqueue_statement id request.queue request.kind (some (copied request.payload))
        request.idempotency_key (request_fingerprint sha256 (clone_enqueue request))
        request.max_attempts (available_argument request.available_at)

  sent_insert : execute_job session sent t ≡ insert_row wanted t
  sent_insert = execute_job-requested session request id _ t valid

  pub enqueue_prepared-new :
      first_where (conflicts wanted) t ≡ none
      → IsReadable wanted
      → Leaves database session refused serves
          (enqueue_prepared sha256 database (clone_enqueue request) (id, none) s)
          (serves.committed s)
          (record { job = job_of wanted; created = true }, none)
          (wanted ∷ t)
  unfolding enqueue_prepared clone_enqueue
  enqueue_prepared-new e readable =
      let done = sent_insert ∙ insert_row-new wanted t wanted-checked wanted_fresh e in
      let (row, below, copy) = serves.answers sent s t open_copy in
      inserted_answers sha256 database session refused serves (clone_enqueue request)
        ((database.query_job sent s).0 >>= scan_job) (job_of wanted) (database.query_job sent s).1
        (serves.committed s) (wanted ∷ t)
        (rw (row, done) (row_read refused wanted [] wanted-checked readable)) below
        (copy ∙ ap (λ (y : Answer × Table). some y.1) done)

  wanted_key :
      (r : Row)
      → first_where (conflicts wanted) t ≡ some r
      → (length request.idempotency_key == 0) ≡ false
  wanted_key r e =
      let (_, hit, _) = first_where-some (conflicts wanted) t r e in
      conflicts-key session id request.queue request.kind (copied request.payload)
        request.idempotency_key _ _ _ r hit

  pub enqueue_prepared-found :
      (r : Row)
      → first_where (conflicts wanted) t ≡ some r
      → IsReadable r
      → Leaves database session refused serves
          (enqueue_prepared sha256 database (clone_enqueue request) (id, none) s)
          (serves.committed s)
          (offered wanted t (some r)).0
          t
  unfolding enqueue_prepared clone_enqueue
  enqueue_prepared-found r e readable =
      let (m, _, _) = first_where-some (conflicts wanted) t r e in
      let checked = every-in satisfies_checks t r c.checked m in
      let done = sent_insert ∙ insert_row-conflict wanted t r wanted-checked e in
      let (row, below, copy) = serves.answers sent s t open_copy in
      let key = wanted_key r e in
      let found =
        keyed_row-select (conflicts wanted) (keyed_by request.queue request.idempotency_key) t r
          (λ y.
            conflicts-keyed_by session id request.queue request.kind (copied request.payload)
              request.idempotency_key _ _ _ y key)
          e in
      let result =
        compared-offered wanted t r (fingerprint_length r checked)
          (fingerprint_length wanted wanted-checked) in
      inserted_falls_back sha256 database session refused serves (clone_enqueue request)
        ((database.query_job sent s).0 >>= scan_job) (database.query_job sent s).1
        (serves.committed s) t (offered wanted t (some r)).0 (rw (row, done) (no_row_read refused))
        key below (copy ∙ ap (λ (y : Answer × Table). some y.1) done)
        (key_result _ _ r found checked readable
          ∙ (ap (λ (b : Bytes). compared b (ok (r.request_fingerprint, job_of r))) (sym wanted_hash)
              ∙ result))
