-- ===== src/Engine/Serving/Reads.antt =====
-- A database that answers reads outside transactions from its committed table.
use gotth_jobs.Common.{ℤ, ◌≡◌, Option, none, map}
use gotth_jobs.Bytes.{Bytes}
use gotth_jobs.Types.{Time}
use gotth_jobs.Errors.{Err, ok}
use gotth_jobs.Table.{Table, columns, of_time, map_option}
use gotth_jobs.Table.Statements.{Session}
use gotth_jobs.Table.Statements.Reads.{counts_sql, list_dead_sql}
use gotth_jobs.Postgres.{Database, get_statement}
use gotth_jobs.Engine.{execute_job}
use gotth_jobs.Engine.Serving.{first_row}

-- What PostgreSQL and pgx promise a read: it sees the committed table `committed s`, changes nothing,
-- and its rows come without an error.
pub record ServesReads {S : Type 0} (database : Database S) (session : Session) (refused : Err)
    (committed : S → Table) : Type 0 where
  pub gets :
      (id : Bytes) (s : S)
      → ((database.query_job (get_statement id) s).0
          ≡ first_row refused (execute_job session (get_statement id) (committed s)).0)
        × (committed (database.query_job (get_statement id) s).1 ≡ committed s)
  pub counts :
      (queue : Bytes) (s : S)
      → ((database.query_counts queue s).0 ≡ ok (counts_sql queue (committed s)))
        × (committed (database.query_counts queue s).1 ≡ committed s)
  pub lists :
      (queue : Bytes) (time : Option Time) (id : Bytes) (limit : ℤ) (s : S)
      → ((database.query_dead queue time id limit s).0
          ≡ ok (record {
            fetched =
                map columns
                  (list_dead_sql session queue (map_option of_time time) id limit (committed s));
            err = none;
          }))
        × (committed (database.query_dead queue time id limit s).1 ≡ committed s)
