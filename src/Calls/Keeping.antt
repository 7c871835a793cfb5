-- ===== src/Calls/Keeping.antt =====
-- The wrapper of a transaction and the steps inside it keep what the database keeps.
use gotth_jobs.Common.{
  ℤ, ◌≡◌, refl, Bool, true, false, not, Option, none, some, arith, if◌then◌else◌,
}
use gotth_jobs.Bytes.{Bytes}
use gotth_jobs.Types.{Lease, ClaimRequest, zero_job}
use gotth_jobs.Errors.{Err, Result, ok, failed, ◌>>=◌, ◌<|>◌, check, is, no_rows}
use gotth_jobs.Rows.{scan_job}
use gotth_jobs.Postgres.{
  Context, Database, Action, transact, deferred, committed, operated, begun, JobStatement,
  claim_statement,
}
use gotth_jobs.Lifecycle.{
  classify_lease, mutated, mutate_lease, lease_mutation, extended, extend_lease, claim_one,
  claim_valid, guarded, with_database, microseconds,
}
use gotth_jobs.Engine.{Statement, job_statement, heartbeat_statement}
use gotth_jobs.Calls.{Preserves}

module _ {S : Type 0} (P : S → Type 0) where
  -- An action that keeps P, whatever it returns.
  abbrev pub Keeping : {T : Type 0} → Action S T → Type 0
  Keeping action = (s : S) → P s → P (action s).1

  pub guarded-Keeping :
      {T : Type 0} (zero : T) (err : Option Err) (action : Action S T)
      → (err ≡ none → Keeping action)
      → Keeping (guarded zero err action)
  guarded-Keeping zero none action keep s p = keep refl s p
  guarded-Keeping zero (some err) action keep s p = p

  pub with_database-Keeping :
      {T : Type 0} (zero : T) (d : Option (Database S)) (action : Database S → Action S T)
      → ((database : Database S) → d ≡ some database → Keeping (action database))
      → Keeping (with_database zero d action)
  with_database-Keeping zero none action keep s p = p
  with_database-Keeping zero (some database) action keep s p = keep database refl s p

  pub if-P : {A : Type 0} (b : Bool) (x y : A × S) → P x.1 → P y.1 → P (if b then x else y).1
  if-P true x y h k = h
  if-P false x y h k = k

module _ {S : Type 0} (allowed : Statement → Type 0) (P : S → Type 0) (database : Database S)
    (keeps : Preserves allowed P database) where
  committed-Keeping :
      {T : Type 0} (value : T) (r : Option Err × S) → P r.1 → P (committed database value r).1
  unfolding committed deferred
  committed-Keeping value (none, s) p = keeps.rollback s p
  committed-Keeping value (some err, s) p = keeps.rollback s p

  operated-Keeping : {T : Type 0} (r : (T × Option Err) × S) → P r.1 → P (operated database r).1
  unfolding operated deferred
  operated-Keeping ((value, some err), s) p = keeps.rollback s p
  operated-Keeping ((value, none), s) p = committed-Keeping value _ (keeps.commit s p)

  begun-Keeping :
      {T : Type 0} (zero : T) (operation : Action S T) (r : Option Err × S)
      → Keeping P operation
      → P r.1
      → P (begun database zero operation r).1
  unfolding begun
  begun-Keeping zero operation (some err, s) keep p = p
  begun-Keeping zero operation (none, s) keep p = operated-Keeping (operation s) (keep s p)

  pub transact-Keeping :
      {T : Type 0} (zero : T) (ctx : Option Context) (operation : Action S T)
      → Keeping P operation
      → Keeping P (transact database zero ctx operation)
  unfolding transact
  transact-Keeping zero none operation keep s p = p
  transact-Keeping zero (some ctx) operation keep s p =
      begun-Keeping zero operation _ keep (keeps.begin_tx s p)

  mutated-Keeping : (id : Bytes) (r : Result _) (s : S) → P s → P (mutated database id r s).1
  unfolding mutated classify_lease
  mutated-Keeping id (ok job) s p = p
  mutated-Keeping id (failed err) s p =
      if-P P (is err no_rows) _ _ (keeps.query_lease_state id s p) p

  pub lease_mutation-Keeping :
      (ctx : Option Context) (id : Bytes) (statement : JobStatement)
      → allowed (job_statement statement)
      → Keeping P (lease_mutation database ctx id statement)
  unfolding lease_mutation mutate_lease
  lease_mutation-Keeping ctx id statement legal = transact-Keeping zero_job ctx _ λ s p.
      mutated-Keeping id ((database.query_job statement s).0 >>= scan_job) _
        (keeps.query_job statement s legal p)

  extended-Keeping : (id : Bytes) (r : Option Err × S) → P r.1 → P (extended database id r).1
  unfolding extended classify_lease
  extended-Keeping id (none, s) p = p
  extended-Keeping id (some err, s) p =
      if-P P (is err no_rows) _ _ (keeps.query_lease_state id s p) p

  pub heartbeat-Keeping :
      (ctx : Option Context) (lease : Lease) (duration : ℤ)
      → allowed (heartbeat_statement lease.job_id lease.token (microseconds duration))
      → Keeping P (transact database tt ctx (extend_lease database lease duration))
  unfolding extend_lease
  heartbeat-Keeping ctx lease duration sends =
      transact-Keeping tt ctx _
        λ s p. extended-Keeping lease.job_id _ (keeps.query_heartbeat _ _ _ s sends p)

  pub claim_valid-Keeping :
      (ctx : Option Context) (request : ClaimRequest) (token : Bytes)
      → allowed (
          job_statement (
            claim_statement request.queue token request.worker
              (microseconds request.lease_duration)))
      → Keeping P (claim_valid database ctx request token)
  unfolding claim_valid claim_one
  claim_valid-Keeping ctx request token sends s p =
      transact-Keeping _ ctx _ (λ s' p'. keeps.query_job _ s' sends p') s p

pub both_none : (a b : Option Err) → (a <|> b) ≡ none → (a ≡ none) × (b ≡ none)
both_none a b h = ground arith

pub check-none : (b : Bool) (e : Err) → check (not b) e ≡ none → b ≡ true
check-none b e h = ground arith
