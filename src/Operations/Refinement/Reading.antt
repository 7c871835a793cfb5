-- ===== src/Operations/Refinement/Reading.antt =====
-- Get, Counts and ListDead answer from the committed table.
use gotth_jobs.Common.{◌≡◌, refl, Option, none, some, [], select, All, All-at, every-in}
use gotth_jobs.Bytes.{Bytes, bytes_eq}
use gotth_jobs.Types.{Job, zero_job}
use gotth_jobs.Errors.{Err, ◌>>=◌, sentinel, not_found, is}
use gotth_jobs.Rows.{scan_job}
use gotth_jobs.Values.Identifiers.{validate_job_id}
use gotth_jobs.Table.{Row, Table, IsConsistent, satisfies_checks}
use gotth_jobs.Table.Decoded.{job_of, IsReadable}
use gotth_jobs.Table.Lookup.{find_row, find_row-some}
use gotth_jobs.Table.Update.{rows}
use gotth_jobs.Table.Statements.{Session}
use gotth_jobs.Postgres.{Context, Database, get_statement}
use gotth_jobs.Engine.{execute_job}
use gotth_jobs.Engine.Serving.Reads.{ServesReads}
use gotth_jobs.Engine.Serving.Updates.{row_read, no_row_read, rows-missing, rows-found}
use gotth_jobs.Lifecycle.Refinement.Transaction.{Performs}
use gotth_jobs.Operations.{got, get}

-- The job of an identifier.
unfoldable pub lookup : Bytes → Table → Option Row → Job × Option Err
unfolding job_of
lookup id t none = (zero_job, some (sentinel not_found))
lookup id t (some r) = (job_of r, none)

module _ {S : Type 0} (database : Database S) (session : Session) (refused : Err)
    (committed : S → Table) (serves : ServesReads database session refused committed)
    (ctx : Context) (s : S) (c : IsConsistent (committed s))
    (readable : All IsReadable (committed s)) where
  get_found :
      (id : Bytes) (o : Option Row)
      → find_row id (committed s) ≡ o
      → (got ((database.query_job (get_statement id) s).0 >>= scan_job) ≡ lookup id (committed s) o)
  unfolding got lookup is
  get_found id none e =
      rw ((serves.gets id s).0, answered id, rows-missing id (committed s) e, no_row_read refused)
        refl
    where
      answered :
          (id : Bytes)
          → (execute_job session (get_statement id) (committed s)).0
            ≡ rows (select (λ r. bytes_eq r.id id) (committed s))
      answered id = unfold execute_job in refl
  get_found id (some r) e =
      let (m, i) = find_row-some id (committed s) r e in
      rw
        (
          (serves.gets id s).0,
          answered id,
          rows-found id (committed s) r c.unique m i,
          row_read refused r [] (every-in satisfies_checks (committed s) r c.checked m)
              (All-at IsReadable (committed s) r readable m),
        )
        refl
    where
      answered :
          (id : Bytes)
          → (execute_job session (get_statement id) (committed s)).0
            ≡ rows (select (λ r. bytes_eq r.id id) (committed s))
      answered id = unfold execute_job in refl

  -- On a database that answers reads from a consistent and readable table, Get of a well-formed
  -- identifier answers the job of its row, or ErrNotFound without one, and changes nothing.
  pub get-Performs :
      (id : Bytes)
      → validate_job_id id ≡ none
      → Performs committed
          (get (some (record { database = some database })) (some ctx) id s)
          (lookup id (committed s) (find_row id (committed s)), committed s)
  unfolding get
  get-Performs id valid =
      rw valid (get_found id (find_row id (committed s)) refl, (serves.gets id s).1)
