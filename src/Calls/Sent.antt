-- ===== src/Calls/Sent.antt =====
-- The statements that the methods send, as a database sees them.
use gotth_jobs.Calls.{Preserves}
use gotth_jobs.Engine.{Statement, job_statement, heartbeat_statement}
use gotth_jobs.Postgres.{Database}
use gotth_jobs.Common.{arith, List, ◌∷◌, All, arith}
use gotth_jobs.Bytes.{Bytes}

-- A database that writes down its statements, the latest first.
unfoldable pub recording : {S : Type 0} → Database S → Database (S × List Statement)
recording database = record {
  begin_tx = λ (s, sent). (let (r, s') = database.begin_tx s in (r, (s', sent)));
  commit = λ (s, sent). (let (r, s') = database.commit s in (r, (s', sent)));
  rollback = λ (s, sent). (let (r, s') = database.rollback s in (r, (s', sent)));
  query_job =
      λ q (s, sent). (let (r, s') = database.query_job q s in (r, (s', job_statement q ∷ sent)));
  query_idempotent_job = λ queue key (s, sent).
      (let (r, s') = database.query_idempotent_job queue key s in (r, (s', sent)));
  query_heartbeat = λ id token micros (s, sent).
      (let (r, s') = database.query_heartbeat id token micros s in
        (r, (s', heartbeat_statement id token micros ∷ sent)));
  query_lease_state =
      λ id (s, sent). (let (r, s') = database.query_lease_state id s in (r, (s', sent)));
  query_isolation = λ (s, sent). (let (r, s') = database.query_isolation s in (r, (s', sent)));
  query_counts =
      λ queue (s, sent). (let (r, s') = database.query_counts queue s in (r, (s', sent)));
  query_dead = λ queue time id limit (s, sent).
      (let (r, s') = database.query_dead queue time id limit s in (r, (s', sent)));
}

pub recording-Preserves :
    {S : Type 0} (allowed : Statement → Type 0) (database : Database S)
    → Preserves {S = S × List Statement} allowed (λ x. All allowed x.1) (recording database)
unfolding recording
recording-Preserves allowed database = record {
  begin_tx = λ (s, sent) p. p;
  commit = λ (s, sent) p. p;
  rollback = λ (s, sent) p. p;
  query_job = λ q (s, sent) a p. (a, p);
  query_idempotent_job = λ queue key (s, sent) p. p;
  query_heartbeat = λ id token micros (s, sent) a p. (a, p);
  query_lease_state = λ id (s, sent) p. p;
  query_counts = λ queue (s, sent) p. p;
  query_dead = λ queue time id limit (s, sent) p. p;
}
