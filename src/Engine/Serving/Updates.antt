-- ===== src/Engine/Serving/Updates.antt =====
-- What an update of one row, and a read of one row, answer inside a transaction that is served.
use gotth_jobs.Common.{
  ◌≡◌, refl, sym, ap, ◌∙◌, Bool, true, false, none, some, List, [], ◌∷◌, select, All, All-of,
  All-at, In, Bool-cases, inl, inr, ◌≢◌, every-in,
}
use gotth_jobs.Bytes.{Bytes, bytes_eq, bytes_eq→eq, bytes_eq_iff}
use gotth_jobs.Types.{Job}
use gotth_jobs.Errors.{Err, Result, ok, failed, ◌>>=◌, sentinel, no_rows}
use gotth_jobs.Rows.{scan_job}
use gotth_jobs.Table.{Row, Table, IsConsistent, HasUniqueIds, satisfies_checks}
use gotth_jobs.Table.Update.{Keeps, update, Answer, rows}
use gotth_jobs.Table.Lookup.{
  find_row, find_row-none, put, update-single, replaced-checked, select-single, select-empty,
}
use gotth_jobs.Table.Decoded.{job_of, IsReadable}
use gotth_jobs.Table.Decoded.Scan.{scan_job-columns}
use gotth_jobs.Table.Statements.{Session}
use gotth_jobs.Table.Statements.Disjoint.{unique_row}
use gotth_jobs.Table.Statements.Fencing.{update-none}
use gotth_jobs.Postgres.{Database, JobStatement, get_statement}
use gotth_jobs.Engine.{execute_job}
use gotth_jobs.Engine.Serving.{Serves, first_row}

pub row_read :
    (refused : Err) (r : Row) (l : List Row)
    → satisfies_checks r ≡ true
    → IsReadable r
    → (first_row refused (rows (r ∷ l)) >>= scan_job) ≡ ok (job_of r)
unfolding first_row
row_read refused r l h readable = scan_job-columns r h readable

pub no_row_read :
    (refused : Err) → (first_row refused (rows []) >>= scan_job) ≡ failed (sentinel no_rows)
unfolding first_row
no_row_read refused = refl

-- A condition on rows of one identifier.
abbrev pub Selects : (Row → Bool) → Bytes → Type 0
Selects p id = (y : Row) → p y ≡ true → y.id ≡ id

-- The rows of an identifier, when there is none, or one.
pub rows-missing :
    (id : Bytes) (t : Table) → find_row id t ≡ none → select (λ r. bytes_eq r.id id) t ≡ []
rows-missing id t e = select-empty _ t (
    All-of _ t λ y n. elim (Bool-cases (bytes_eq y.id id)) [
      | inl h ↦
          absurd (All-at (λ z. z.id ≢ id) t y (find_row-none id t e) n (bytes_eq→eq y.id id h))
      | inr h ↦ h
    ])

pub rows-found :
    (id : Bytes) (t : Table) (r : Row)
    → HasUniqueIds t
    → In r t
    → r.id ≡ id
    → select (λ y. bytes_eq y.id id) t ≡ r ∷ []
rows-found id t r u m i =
    select-single _ t r u m ((bytes_eq_iff r.id id).1 i) (λ y h. bytes_eq→eq y.id id h ∙ sym i)

pub unmet-missing :
    (p : Row → Bool) (id : Bytes) (t : Table)
    → Selects p id
    → find_row id t ≡ none
    → All (λ r. p r ≡ false) t
unmet-missing p id t only e = All-of _ t λ y n. elim (Bool-cases (p y)) [
  | inl h ↦ absurd (All-at (λ z. z.id ≢ id) t y (find_row-none id t e) n (only y h))
  | inr h ↦ h
]

pub unmet-other :
    (p : Row → Bool) (id : Bytes) (t : Table) (r : Row)
    → Selects p id
    → HasUniqueIds t
    → In r t
    → r.id ≡ id
    → p r ≡ false
    → All (λ y. p y ≡ false) t
unmet-other p id t r only u m i h = All-of _ t λ y n. elim (Bool-cases (p y)) [
  | inl k ↦ cc (h, ap p (unique_row t y r u n m (only y k ∙ sym i)))
  | inr k ↦ k
]

module _ {S : Type 0} (database : Database S) (session : Session) (refused : Err)
    (serves : Serves database session refused) (s : S) (t : Table)
    (open_copy : serves.copy s ≡ some t) where
  -- A statement read `x`, left the committed table alone, and left the copy `u`.
  pub record Reads (statement : JobStatement) (x : Result Job) (u : Table) : Type 0 where
    pub read : ((database.query_job statement s).0 >>= scan_job) ≡ x
    pub below : serves.committed (database.query_job statement s).1 ≡ serves.committed s
    pub copy : serves.copy (database.query_job statement s).1 ≡ some u

  module _ (statement : JobStatement) (p : Row → Bool) (change : Row → Row)
      (runs : execute_job session statement t ≡ update p change t) where
    pub update-changed :
        (id : Bytes) (r : Row)
        → IsConsistent t
        → In r t
        → r.id ≡ id
        → p r ≡ true
        → Selects p id
        → All (Keeps p change) t
        → ((y : Row) → (change y).id ≡ y.id)
        → IsReadable (change r)
        → Reads statement (ok (job_of (change r))) (put (change r) t)
    update-changed id r c m i h only keep same readable =
        let done : execute_job session statement t ≡ (rows (change r ∷ []), put (change r) t) =
          runs ∙ update-single p change t r c m h (λ y q. only y q ∙ sym i) keep same in
        let (row, below, copy) = serves.answers statement s t open_copy in
        record {
          read =
              rw (row, done)
                (row_read refused (change r) [] (replaced-checked p change t r c m h keep)
                  readable);
          below = below;
          copy = copy ∙ ap (λ (y : Answer × Table). some y.1) done;
        }

    pub update-unmet : All (λ r. p r ≡ false) t → Reads statement (failed (sentinel no_rows)) t
    update-unmet free =
        let done : execute_job session statement t ≡ (rows [], t) =
          runs ∙ update-none p change t free in
        let (row, below, copy) = serves.answers statement s t open_copy in
        record {
          read = rw (row, done) (no_row_read refused);
          below = below;
          copy = copy ∙ ap (λ (y : Answer × Table). some y.1) done;
        }

  get_run :
      (id : Bytes)
      → execute_job session (get_statement id) t ≡ (rows (select (λ r. bytes_eq r.id id) t), t)
  unfolding execute_job
  get_run id = refl

  pub get-found :
      (id : Bytes) (r : Row)
      → IsConsistent t
      → In r t
      → r.id ≡ id
      → IsReadable r
      → Reads (get_statement id) (ok (job_of r)) t
  get-found id r c m i readable =
      let done = get_run id ∙ ap (λ (l : List Row). (rows l, t)) (rows-found id t r c.unique m i) in
      let (row, below, copy) = serves.answers (get_statement id) s t open_copy in
      record {
        read =
            rw (row, done)
              (row_read refused r [] (every-in satisfies_checks t r c.checked m) readable);
        below = below;
        copy = copy ∙ ap (λ (y : Answer × Table). some y.1) done;
      }

  pub get-missing :
      (id : Bytes) → find_row id t ≡ none → Reads (get_statement id) (failed (sentinel no_rows)) t
  get-missing id e =
      let done = get_run id ∙ ap (λ (l : List Row). (rows l, t)) (rows-missing id t e) in
      let (row, below, copy) = serves.answers (get_statement id) s t open_copy in
      record {
        read = rw (row, done) (no_row_read refused);
        below = below;
        copy = copy ∙ ap (λ (y : Answer × Table). some y.1) done;
      }
