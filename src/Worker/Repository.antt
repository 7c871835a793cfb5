-- ===== src/Worker/Repository.antt =====
-- The repository as the worker's store.
use gotth_jobs.Common.{Option, some}
use gotth_jobs.Bytes.{Bytes}
use gotth_jobs.Errors.{Err}
use gotth_jobs.Postgres.{PostgreSql}
use gotth_jobs.Lifecycle.{claim, heartbeat, complete, fail}
use gotth_jobs.Calls.Safety.{repository}
use gotth_jobs.Worker.{Store}

-- `*PostgreSQL` is a Store; the entropy source is part of the state.
unfoldable pub postgresql_store :
    {S : Type 0} → Option (PostgreSql S) → (S → Bytes × Option Err) → Store S
postgresql_store repository entropy = record {
  claim = λ ctx request s. claim repository (some ctx) request (entropy s).0 (entropy s).1 s;
  heartbeat = λ ctx lease duration s.
      (let (r, s') = heartbeat repository (some ctx) lease duration s in (r.1, s'));
  complete = λ ctx lease s. complete repository (some ctx) lease s;
  fail = λ ctx lease failure s. fail repository (some ctx) lease failure s;
}
